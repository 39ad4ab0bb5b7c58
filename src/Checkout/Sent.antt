-- ===== src/Checkout/Sent.antt =====
-- What `hold` and `ensureToken` promise.
use crowdtic.Base.{
  ℕ, ◌≡◌, ◌⊎◌, inl, inr, refl, ap, ◌∙◌, String, Bool-cases, true, false, none, some, List, [], ◌∷◌,
  ◌++◌, is_empty,
}
use crowdtic.Token.Base64.{Crypto}
use crowdtic.Token.Claims.{Payload}
use crowdtic.Token.Sign.{seal}
use crowdtic.Storefront.State.{nothing}
use crowdtic.Storefront.Browser.{Browser}
use crowdtic.Checkout.Input.{seat_list}
use crowdtic.Checkout.Page.{Checkout, HoldRequest, ensure_token, sign_dev_token, hold}

append-cons-full : (xs : List ℕ) (y : ℕ) (ys : List ℕ) → is_empty (xs ++ y ∷ ys) ≡ false
append-cons-full [] y ys = refl
append-cons-full (x ∷ xs) y ys = refl

is_empty-eq-nil : (xs : List (List ℕ)) → is_empty xs ≡ true → xs ≡ []
is_empty-eq-nil [] h = refl
is_empty-eq-nil (x ∷ xs) h = cc

seal-full :
    (c : Crypto) (secret : String) (payload : Payload) → is_empty (seal c secret payload) ≡ false
unfolding seal
seal-full c secret payload = append-cons-full _ _ _

-- A request that can be answered: it has the page's token and the seats of the text, and both.
pub record IsComplete (s t : Checkout) (event_id : String) (q : HoldRequest) : Type 0 where
  pub token_given : is_empty q.token ≡ false
  pub token_kept : t.token ≡ q.token
  pub event_named : q.event_id ≡ event_id
  pub seats_read : q.seat_ids ≡ seat_list s.seat_input
  pub seats_given : is_empty q.seat_ids ≡ false

module _ {W : Type 0} (c : Crypto) (b : Browser W) (event_id : String) where
  ensure_token-full :
      (s : Checkout) (w : W)
      → is_empty (ensure_token c b event_id s w).0 ≡ false
        × (ensure_token c b event_id s w).1.token ≡ (ensure_token c b event_id s w).0
  unfolding ensure_token sign_dev_token
  ensure_token-full s w = elim (Bool-cases (is_empty s.token)) [
    | inl bare ↦ rw bare (seal-full c _ _, refl)
    | inr full ↦ rw full (full, refl)
  ]

  ensure_token_ready :
      (s : Checkout) (w : W)
      → is_empty s.token ≡ false
      → ensure_token c b event_id s w ≡ (s.token, s, w)
  unfolding ensure_token
  ensure_token_ready s w full = rw full refl

  -- A page that has made itself a token uses that one from then on.
  pub ensure_token-twice :
      (s : Checkout) (w later : W)
      → ensure_token c b event_id (ensure_token c b event_id s w).1 later
        ≡ ((ensure_token c b event_id s w).0, (ensure_token c b event_id s w).1, later)
  ensure_token-twice s w later =
      let (full, kept) = ensure_token-full s w in
      let t = (ensure_token c b event_id s w).1 in
      ensure_token_ready t later (ap is_empty kept ∙ full) ∙ ap (λ x. (x, t, later)) kept

  -- `hold` sends nothing if no seat id is left of the text, and otherwise one request, with the
  -- seats of the text, of which there is one, and with a token that is not empty and stays the
  -- page's.
  pub hold_lem :
      (s : Checkout) (w : W)
      → (seat_list s.seat_input ≡ [] × (hold c b event_id s w).0 ≡ none)
        ⊎ ((q : HoldRequest) × (hold c b event_id s w).0 ≡ some q
            × IsComplete s (hold c b event_id s w).1 event_id q)
  unfolding hold
  hold_lem s w =
      let ready = ensure_token-full (record s { err = nothing }) w in
      elim (Bool-cases (is_empty (seat_list s.seat_input))) [
        | inl blank ↦ rw blank (inl (is_empty-eq-nil _ blank, refl))
        | inr given ↦ rw given (
            inr (
              _,
              refl,
              record {
                token_given = ready.0;
                token_kept = ready.1;
                event_named = refl;
                seats_read = refl;
                seats_given = given;
              },
            ))
      ]
