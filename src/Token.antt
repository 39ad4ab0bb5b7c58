-- ===== src/Token.antt =====
-- The queue token of edge/waiting-room/src/index.ts. A text that the code takes apart (a token, a
-- base64 text) is the list of its code units.
pub mod Base64
pub mod Claims
pub mod Split
pub mod Sign
pub mod Verify
pub mod Laws
pub mod RoundTrip
pub mod Accept
pub mod Window
