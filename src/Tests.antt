-- ===== src/Tests.antt =====
-- A world in memory, coders, and the theorems at concrete inputs.
pub mod Latin
pub mod World
pub mod Dealt
pub mod Table
pub mod Sales
pub mod Coder
pub mod Data
pub mod Tokens
pub mod Rooms
pub mod Shelf
pub mod Lines
pub mod Served
pub mod Fetches
pub mod Sweeps
pub mod Shop
pub mod Pages
