-- ===== src/Room.antt =====
-- The handlers of edge/waiting-room/src/index.ts.
pub mod Guards
pub mod Queue
pub mod Join
pub mod Pool
pub mod Status
pub mod Admit
pub mod Schedule
pub mod Router
pub mod Store
pub mod Sorted
pub mod Popped
pub mod Moved
pub mod Seats
pub mod Pushed
pub mod Joined
pub mod Tickets
pub mod Admission
pub mod Standing
pub mod Overtaken
pub mod Reach
pub mod Thrown
pub mod Sets
pub mod Entered
pub mod Race
pub mod Apart
pub mod Lined
pub mod Served
pub mod Drawn
pub mod Told
pub mod Due
pub mod Spec
