-- ===== src/Base/Async.antt =====
-- Asynchronous code as state passing: a computation reads and changes the world outside the
-- program, and returns or throws. What was written before a throw stays written.
use mathlib.Core.Path.{◌≡◌, refl}
use mathlib.Core.List.{List, [], ◌∷◌}
use Prim.Native.String.{String}

pub data Outcome (A : Type 0) : Type 0 where
  ok : A → Outcome A
  throw : String → Outcome A

abbrev pub M : Type 0 → Type 0 → Type 0
M W A = W → Outcome A × W

abbrev pub pure : {W A : Type 0} → A → M W A
pure a w = (ok a, w)

abbrev pub fail : {W A : Type 0} → String → M W A
fail e w = (throw e, w)

-- What follows a step that has been made.
abbrev pub continue : {W A B : Type 0} → Outcome A → W → (A → M W B) → Outcome B × W
continue (ok a) w f = f a w
continue (throw e) w f = (throw e, w)

pub continue-ok :
    {W A B : Type 0} (r : Outcome A) (w : W) (f : A → M W B) {b : B}
    → (continue r w f).0 ≡ ok b
    → (a : A) × (r ≡ ok a) × ((f a w).0 ≡ ok b)
continue-ok (ok a) w f h = (a, refl, h)
continue-ok (throw e) w f h = cc

-- A last step that only drops the result leaves the world as it is.
pub continue-pure :
    {W A B : Type 0} (r : Outcome A) (w : W) (b : B) → (continue r w (λ _. pure b)).1 ≡ w
continue-pure (ok a) w b = refl
continue-pure (throw e) w b = refl

pub continue-then_pure :
    {W A B : Type 0} (r : Outcome A) (w : W) (f : A → B) → (continue r w (λ a. pure (f a))).1 ≡ w
continue-then_pure (ok a) w f = refl
continue-then_pure (throw e) w f = refl

infixl 5 ◌>>=◌ ◌>>◌
abbrev pub ◌>>=◌ : {W A B : Type 0} → M W A → (A → M W B) → M W B
◌>>=◌ m f w = continue (m w).0 (m w).1 f

abbrev pub ◌>>◌ : {W B : Type 0} → M W (Unit {0}) → M W B → M W B
m >> k = m >>= λ _. k

-- `try { m } catch (e) { k(e) }`
abbrev pub caught : {W A : Type 0} → Outcome A → W → (String → M W A) → Outcome A × W
caught (ok a) w k = (ok a, w)
caught (throw e) w k = k e w

abbrev pub try_catch : {W A : Type 0} → M W A → (String → M W A) → M W A
try_catch m k w = caught (m w).0 (m w).1 k

-- A step that cannot fail.
abbrev pub lift : {W A : Type 0} → (W → A × W) → M W A
lift f w = (ok (f w).0, (f w).1)

-- `for (const x of xs) out.push(await f(x))`
unfoldable pub for_each : {W A B : Type 0} → (A → M W B) → List A → M W (List B)
for_each f [] = pure []
for_each f (x ∷ xs) = let rest = for_each f xs in do y ← f x; ys ← rest; pure (y ∷ ys)
