-- ===== src/Pool/RoomTests.antt =====
-- A pool of process/pool.go to which one item is added.
use go_cedar.Base.{ℕ, lookup, insert}
use go_cedar.Mailbox.{new_mailbox, deliver}
use go_cedar.Pool.Ops.{new_pool, add, announce}
use go_cedar.Pool.World.{World, start}
use go_cedar.Pool.Tests.{plain}

empty_pool : World (ℕ × ℕ) ℕ
unfolding start new_pool new_mailbox
empty_pool = start plain 2 100

one_item : World (ℕ × ℕ) ℕ
unfolding empty_pool add announce deliver lookup insert
one_item = record empty_pool { pool = add plain 7 empty_pool.pool }
