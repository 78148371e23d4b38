-- ===== src/Pool.antt =====
-- process/pool.go: the items of a pool, the goroutine that hands them out, and the calls of clients.
pub mod Semaphore
pub mod Ops
pub mod World
pub mod Effects
pub mod Invariant
pub mod Delivery
pub mod Safety
pub mod States
pub mod Pending
pub mod Flow
pub mod Overflow
pub mod Room
pub mod Kept
pub mod Tests
mod RoomTests
