-- ===== src/Checkout.antt =====
-- The page for seat ids by hand (frontend/app/checkout/page.tsx), without its markup.
pub mod Input
pub mod Page
pub mod RoundTrip
pub mod Sent
