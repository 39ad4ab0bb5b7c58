-- ===== src/RateLimit/Window.antt =====
-- How many hits one window lets through, without Redis.
use crowdtic.Base.{
  ℕ, zero, suc, ◌+◌, ◌-◌, ◌/◌, ◌≡◌, refl, String, false, some, Outcome, ok, throw, arith, min,
  if◌then◌else◌, leb,
}
use crowdtic.Platform.{Platform, rate_limit_kv}
use crowdtic.Env.{Env}
use crowdtic.Redis.{enabled}
use crowdtic.RateLimit.{Kind, Hit, window_key, counter, hit_rate_limit, hit_kv}
use crowdtic.Room.Store.{KvLaws}

-- 1 for a hit that is let through.
abbrev pub passes : Outcome Hit → ℕ
passes (ok h) = if h.allowed then 1 else 0
passes (throw e) = 0

module _ {W : Type 0} {p : Platform W} (kv : KvLaws p) (env : Env) (kind : Kind) (id : String)
    (limit : ℕ) where
  -- How many of the next `n` hits are let through.
  pub let_through : ℕ → W → ℕ
  let_through zero w = 0
  let_through (suc n) w =
      passes (hit_rate_limit p env kind id (some limit) w).0
      + let_through n (hit_rate_limit p env kind id (some limit) w).1

  -- The next `n` hits fall in one window.
  abbrev pub InWindow : ℕ → ℕ → W → Type 0
  InWindow window zero w = Unit {0}
  InWindow window (suc n) w =
      ((p.date_now w).0 / 1000 / 60 ≡ window)
      × InWindow window n (hit_rate_limit p env kind id (some limit) w).1

  module _ (off : enabled env ≡ false) (window : ℕ) where
    hit_lem :
        (m : ℕ) (w : W)
        → (p.date_now w).0 / 1000 / 60 ≡ window
        → counter (kv.lookup w rate_limit_kv (window_key kind id window)) ≡ some m
        → (passes (hit_rate_limit p env kind id (some limit) w).0
            ≡ (if leb (m + 1) limit then 1 else 0))
          × (counter (
                kv.lookup
                  (hit_rate_limit p env kind id (some limit) w).1
                  rate_limit_kv
                  (window_key kind id window))
              ≡ some (m + 1))
    unfolding hit_rate_limit hit_kv
    hit_lem m w here e =
        rw
          (
            off,
            here,
            kv.kv_get_lem,
            kv.kv_put_for _ _ _ 70 _ (omega arith),
            kv.lookup-date_now w,
            e,
            kv.lookup-put_self,
          )
          (refl, refl)

    -- Without Redis, of `n` hits in one window that begin with a counter of `m`, exactly as many are
    -- let through as the limit leaves, or all of them if they are fewer.
    pub let_through_lem :
        (n m : ℕ) (w : W)
        → InWindow window n w
        → counter (kv.lookup w rate_limit_kv (window_key kind id window)) ≡ some m
        → let_through n w ≡ min n (limit - m)
    unfolding let_through
    let_through_lem zero m w h e = omega arith
    let_through_lem (suc n) m w h e =
        let one = hit_lem m w h.0 e in
        let rest = let_through_lem n (m + 1) _ h.1 one.1 in rw (one.0, rest) (ground arith)
