-- ===== src/Lib.antt =====
-- A model of BaiduDiskLink, a file system over a cloud drive.
--
-- The program's parts, and how they meet. A read of a file reaches the stream engine
-- (internal/stream/manager.go), which classifies the access of the handle, keeps a session for each
-- version of a file, plans the chunks ahead of a reader, and lets workers download them as tasks;
-- finished chunks go to the chunk store (internal/stream/store.go), a memory cache over a disk
-- cache. The workers download through the remote reader (internal/remote/remote.go), which keeps
-- links and a cache of windows, and reads through the client of the cloud drive
-- (internal/baidu/client.go). The file system (internal/fs/filesystem.go) answers the kernel from a
-- metadata store (internal/store/store.go), which it refreshes from the remote listing, and remembers
-- missing paths (internal/cache/negative.go). A proxy (internal/app/playback.go) serves a file over
-- HTTP through the same reader.
--
-- Which file models which part:
--   Common: the names that all share, lists, slices, association lists, decimal numbers.
--   ChunkStore/Types, Names: `File`, `chunkKey`, `fileVersion`, `chunkVersion`, `sanitizeVersion`,
--     `chunkPath`, `parseChunkFileName`.
--   ChunkStore/Memory, Disk, Store: the two halves of `chunkStore`, and `get`, `put`, `length`.
--   Stream/Config: `Config`, `DefaultConfig`, the completion of the settings in `NewManager`.
--   Stream/Access: `observeHandleLocked`. Stream/Session: `session`, the rest of `prepareRead`, the
--     worker limit. Stream/Buffer: `scheduleBuffer`. Stream/Assembly: the guards and the copying
--     loops of `readAt`.
--   Stream/Board: `task` and the maps of the manager with `ensureTask`, `finishTask`,
--     `publishHedge`, `startHedge`, the cancellations and `Close`; Stream/Board/Choice: `nextTask`.
--   Stream/Timing: `recordLatencyLocked` and `hedgeDelay`.
--   Remote/Errors: `ClassifyDownloadError`. Remote/Windows: `storeCachedLocked`,
--     `readCachedLocked`, `removeCachedKeyLocked`. Remote/Reader: the settings, `downloadLink`,
--     `ReadExactRange`, `ReadStreamRange`, `waitInflight`, `readSequential`. Remote/Concurrent: `ReadRange`,
--     `readConcurrent` and `readChunk`.
--   Baidu/Network: what the client asks of the network, and `doJSON`. Baidu/Account: links and
--     tokens. Baidu/ContentRange: `parseContentRange`. Baidu/Download: `ReadRange`. Baidu/Listing:
--     `List`, `Stat`, `Delete`. Baidu/Client: the client as the reader sees it.
--   MetadataStore: the table of internal/store/store.go and its operations; MetadataStore/Like: the
--     pattern match of SQLite; MetadataStore/Lookup and Run: the map that the table stands for.
--   Filesystem: `deleteChild`, `shouldRefresh` and `trimRootPrefix`; Filesystem/Paths: `JoinPath`
--     and package path; Filesystem/Attributes: `Getattr` and `fillEntryOut`; Filesystem/Directory:
--     `refreshRoot`, `refreshDir`, `Readdir`, `Lookup`.
--   Playback: internal/app/playback.go. NegativeCache: internal/cache/negative.go. Settings: the
--     parsing in internal/config/config.go.
--   Examples: the theorems at small inputs.
--
-- How the model is made. A function that runs under a lock is a function from the state before to
-- the state after, and an interleaving of callers is a list of such calls. An element of a linked
-- list is named by the key of its entry, and a task by its sequence number, so the pointers of the
-- source are lookups. The heap of tasks is a list from which the first task by `Less` is taken.
-- Sizes, offsets and times (in nanoseconds) are natural numbers; an argument that may be negative
-- is an integer where it is checked. Offsets are taken to stay below 2^63, so that sums do not wrap
-- around. The operating system, the network with its JSON decoder, the clock, the id of a new row
-- and the order of a range over a map are arguments; the reader takes the client as an argument, and
-- Baidu/Client fills it in. The loop of `nextTask` has as many rounds as the queue has tasks, and each
-- round takes one out; the loops of a body and of a proxied range have as many rounds as bytes are
-- missing, and each round brings one or ends; `List` has as many as there are marks up to the greatest,
-- since marks go up. A retry loop has the two rounds of the source. The chunks of `readConcurrent`
-- come in an order that is an argument.
--
-- What is not modelled: the waiting on channels and condition variables; how the reads of several
-- callers come about, where what a joined read comes to is an argument; the reclamation of memory of
-- an idle engine; the walk over all known directories; logging and diagnostics; errors of SQLite,
-- HTTP, JSON, FUSE, the login and the command line.
pub mod Common
pub mod ChunkStore
pub mod Stream
pub mod Remote
pub mod Filesystem
pub mod NegativeCache
pub mod Examples
pub mod Settings
pub mod Baidu
pub mod MetadataStore
pub mod Playback
