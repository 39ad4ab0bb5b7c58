-- ===== src/Storefront.antt =====
-- The storefront page of the browser (frontend/app/page.tsx, `Home`), without its markup.
pub mod State
pub mod Load
pub mod Picks
pub mod Booking
pub mod Countdown
pub mod Browser
pub mod Join
pub mod View
pub mod Screen
pub mod Session
