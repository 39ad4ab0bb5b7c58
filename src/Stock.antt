-- ===== src/Stock.antt =====
-- The stock of seats: the Lua scripts of redis/lua, each of which Redis runs as one step.
pub mod Calls
pub mod Hold
pub mod Commit
pub mod Granted
pub mod Counted
pub mod Decided
pub mod Sold
pub mod Buyers
pub mod Committed
pub mod Freed
pub mod Once
pub mod Lost
pub mod Restored
pub mod Release
