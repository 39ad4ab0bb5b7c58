-- ===== src/Storefront/Session/Tokenless.antt =====
-- A visitor who has joined while the worker works.
use crowdtic.Base.{String, ◌≡◌, refl, true, none, is_empty}
use crowdtic.Http.{JoinReply}
use crowdtic.Token.Base64.{Crypto}
use crowdtic.Storefront.State.{Home, need_token}
use crowdtic.Storefront.Browser.{Browser, joined}
use crowdtic.Storefront.Join.{join_start, join_done}
use crowdtic.Storefront.Booking.{hold_start}

module _ {W : Type 0} (c : Crypto) (b : Browser W) where
  -- If the worker answers a join, with no token as it always does, then a page without a token has
  -- none afterwards: its hold sends nothing and asks to join first.
  pub hold_start-join_done :
      (h : Home) (event_id user_id key : String) (reply : JoinReply) (w : W)
      → is_empty h.token ≡ true
      → let joined_home = (join_done c b event_id user_id (joined reply none) (join_start h) w).0 in
        hold_start key joined_home ≡ (record joined_home { err = need_token }, none)
  unfolding hold_start join_done join_start
  hold_start-join_done h event_id user_id key reply w bare = rw bare refl
