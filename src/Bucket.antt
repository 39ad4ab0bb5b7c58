-- ===== src/Bucket.antt =====
-- `tokenBucketConsume` of edge/waiting-room/src/index.ts. `bucket_step` is its arithmetic, in
-- thousandths of a token, where the division by 1000 is exact.
pub mod Step
pub mod Consume
pub mod Rate
pub mod Retry
pub mod Spent
