-- ===== src/Lib.antt =====
-- Verification of go-cedar: the process tree, the item pool with its workers, and the small data
-- structures and helpers that they stand on.
--
-- How the program's parts interact. A `Process` (process/process.go, process/api.process.go) owns
-- child processes: `StartChild` starts a goroutine for each child that closes the child when its
-- parent closes, and `Close` waits for all children. A `Pool` (process/pool.go) is a process whose
-- two goroutines hand items to clients: `Add` announces an item in a `Mailbox` (utils/mailbox.go),
-- `deliverAvailableItems` offers the announced items to clients that wait in `Get`, and
-- `handleItemsAwaitingRetry` announces items again. A `poolWorker` (process/pool_worker.go) runs
-- goroutines that get items, work on them, and give them back. `ExponentialBackoff` and its ticker
-- (utils/time.go), `WaitGroupChan` (utils/channels.go), `Bytes` and `Buf` (bufs/encoding.go),
-- `BufMap` (bufs/map.go), `Fields` (log/fields.go), the logger (log/logger.go), the functions on
-- strings (utils/strings.go, utils/state_uri.go), those on files (utils/files.go), `GetValue`
-- (utils/misc.go), the functions on requests (utils/http.go), on keys (utils/certs.go) and
-- `APHash64` (bufs/hash.go) stand by themselves. A `PeriodicTask` (process/periodic_task.go) is a
-- process whose goroutine stands between a ticker, a mailbox of one place and the task it runs.
--
-- Base: numbers, integers, lists, texts, bits, association lists, counts, and the outcome of a step,
--   which is made, waits or panics.
-- Mailbox: utils/mailbox.go, one function for each method. Mailbox/Fifo has the abstract queue.
-- Pool: process/pool.go. Pool/Ops has the methods that run under the lock; Pool/World has the pool
--   with its goroutines and clients, and one event for each step that a goroutine takes between two
--   points where another may run. Invariant, Delivery and Safety carry the invariant through them;
--   States, Pending, Flow, Overflow, Room and Kept have what becomes of the items. The weighted
--   semaphore of golang.org/x/sync is the parameter of Pool/Semaphore, with its documented laws for
--   units of weight 1, and items come with their `ID`.
-- Workers: process/pool_worker.go, the phases of each worker over a pool, and the static scheduler.
-- Process: process/process.go. The methods of one process stand in Process.antt; Process/Tree has
--   processes at addresses, the monitor goroutine of each child, and one event for each step.
--   Closing, Steps, Invariant and Done carry the invariant; Ranks, Order, Progress, Measure, Ending
--   and Completion have that closing comes to an end; Labels, Names and Export have the numbers, the
--   labels and `ExportContextTree`, to any depth; Race has what goes wrong. Returns has that each call
--   of `Close` can come to its end, Waits and Bounds that the goroutines of `Autoclose` do too, and Reuse when
--   its wait group is used again too early. Process/Functions has the functions that `Go` runs.
-- Backoff: utils/time.go. A `time.Duration` is a 64-bit pattern; Backoff/Ticker has the goroutine
--   of its ticker, Backoff/Static the static ticker.
-- WaitGroup: utils/channels.go, `WaitGroupChan` with its goroutine and its clients.
-- Contexts: utils/channels.go, `CombinedContext` with its goroutine; Contexts/Chans has
--   `ContextFromChan` and `ChanContext`.
-- Bytes: bufs/encoding.go, hexadecimal text, JSON strings and the reusable buffer; Bytes/Desc has the
--   texts for logs, and Bytes/Scratch the functions that marshal into a scratch buffer. Items and
--   encoding/base32 are its parameters.
-- Logger: log/logger.go. A logger's state and the package's `longestLabel` are passed on; what a call
--   logs is a list of lines. fmt and the verbosity of klog are the parameter `Formatting`.
--   Logger/Interrupts has `AwaitInterrupt`.
-- Periodic: process/periodic_task.go, one event for each step of the goroutine or of a client. The
--   ticker may send at any time.
-- BufMap: bufs/map.go. The hash of hash/maphash is a parameter, any function, of which the 64-bit
--   result is used. Fields: log/fields.go. Strings: utils/strings.go.
-- Values: `GetValue` of utils/misc.go. Uris: utils/state_uri.go and the content types of
--   utils/http.go, where `http.DetectContentType` is a parameter. Files: utils/files.go over a store
--   of files at paths, with the calls of os that the code makes; Files/Temp has `CreateTemp` over given
--   readings of the clock. Sizes: `FileSize` of utils/files.go, where numbers of floating point and
--   their texts are parameters.
-- Requests: utils/http.go. Requests/Tags scans the tags of a struct as the regular expression does,
--   Requests.antt fills the fields as reflect would, with `UnmarshalText` of the fields' types as a
--   parameter, and Requests/Client has the goroutine of `HTTPClient`.
-- Awaiter: testutils/expectations.go. Hashes: `APHash64` of bufs/hash.go. Certs: utils/certs.go over keys as data, with the cryptography as
--   parameters.
--
-- Bounds and fuel. The loop of `RetrieveAll` has one unit of fuel for each element, and the printing
-- of a number one unit more than the number, where each round divides it by ten. The probing of
-- `BufMap` has one unit more than the map has entries, which is enough below 2 ^ 64 entries
-- (BufMap/Probing). `ExportContextTree` is taken down to any depth. All other loops are recursion on
-- their lists, or events. Durations wrap around at 2 ^ 64. Counters of wait groups, lengths and
-- process numbers are taken to stay within an int.
--
-- What the callers are held to is written out as a predicate on events: Process/Tree/Closing and
-- Pool/Invariant each have one, `Allowed`; Process/Tree/Reuse has `Careful`, Pool/Kept `GoesOn`, and
-- Process/Tree/Order `NotOwnParent`. WaitGroup/Safety has `is_misuse`, the steps that panic.
-- Process/Tree/Progress tells the steps that goroutines make of themselves, `IsInternal`, from the
-- calls of clients; Process/Tree/Bounds adds those of `Autoclose`, `IsOwnStep`.
--
-- Not modelled: the answers in JSON and the CORS handler of utils/http.go, random values and the
-- copies and texts in JSON of utils/misc.go, and errors/errors.go, which only call libraries; the
-- hashes of the Go runtime in bufs/hash.go; `Wait` of utils/time.go; `GetExePath` of
-- utils/files.go; `Close` of a pool worker; testutils/logging.go. Of process/process.go: an
-- `OnContextStarted` that fails, the mutex `subsMu`, on which `ExportContextTree` of a process that is
-- its own descendant would wait for ever, and the panic of a wait group that is used again before the
-- `Wait` of `Close` has returned, which only an `Add` after `Close` can cause. Of process/pool.go: an
-- interval that is not positive, at which the ticker of the time package panics.
mod Base
pub mod Mailbox
pub mod Pool
pub mod Process
pub mod Requests
pub mod Sizes
pub mod Backoff
pub mod Workers
pub mod Logger
pub mod Periodic
pub mod Values
pub mod Uris
pub mod Files
pub mod Contexts
pub mod WaitGroup
pub mod Bytes
pub mod BufMap
pub mod Hashes
pub mod Certs
pub mod Fields
pub mod Awaiter
pub mod Strings
