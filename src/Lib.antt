-- ===== src/Lib.antt =====
-- A replicated file system in the manner of GFS.
--
-- The program has a master (master/*.py) that keeps the names of files, the chunks that each file
-- consists of and the servers that hold a replica of each chunk; chunkservers (chunkserver/*.cpp)
-- that store the chunks; and a client library (client/*.py), which asks the master where a chunk is
-- and sends and reads its bytes at the chunkservers. This library models all three.
--
-- Prelude, Dict and Text stand for what the Python code uses of its language: exceptions that keep
-- what was written before, lists, dicts in insertion order, and operations on text.
-- Metadata, Locks: master/metadata.py; Locks.Threads: the handlers as threads that wait for locks.
-- Oplog: master/oplog.py. Lease: master/lease.py.
-- GarbageCollection: master/garbage_collection.py. Heartbeat: master/heartbeat.py and the failure
-- handler that master/server.py puts in its place. Replication: master/replication.py.
-- Startup, Files, Locations: `_restore_state` and the handlers of master/server.py.
-- State: the objects that all of these share, as one record `Master`.
-- Bytes: byte strings, and a file that is read and written at an offset. Storage, Checksum, Buffer:
-- chunkserver/storage.cpp, checksum.cpp and buffer.cpp. Chunkserver: the calls of
-- chunkserver/main.cpp, over the servers that are running, as one state `Cluster`; a handler that
-- calls another server is one function of that state.
-- HeartbeatSender: chunkserver/heartbeat.cpp, with the master that answers.
-- Cache: client/cache.py. Client: client/gfs_client.py and client/pipeline.py, over a `World` of the
-- master, the chunkservers, the cache and the counter of serial numbers.
-- System: the handlers and the rounds of the background threads as steps, in any order; the modules
-- below it hold what is true after any number of steps, and what one step does to all of it:
-- Invariant, Tidy, Leases, Collection, Locking, Placement, Indexing and Lookups, Recovery (a
-- restart), Races. Renewals, Regrants and Padding follow a lease or an append up to the next
-- heartbeats, Deletions a lookup that a deletion overtakes. Healing: a worker of the replication
-- together with the chunkservers that it calls.
-- Examples: concrete clusters on which the theorems are applied.
--
-- A handler is one step, as under its locks; Locks.Threads has a step for each lock that is taken
-- or released, and one for the body. What runs behind the locks or waits for a call has steps of
-- its own as well: a lookup's part under the locks, its test of the lease and its grant, and a
-- worker's round up to the copy and from the reply on. The reply and the plan of a copy are
-- arguments there, so that any copy may be answered at any time. Times are microseconds as natural
-- numbers, and each reading of the clock is an argument. `random.sample` is a parameter with the
-- laws that Python documents (`System.IsSampler`); the draw may depend on the time of the
-- allocation, as well as on the servers. JSON and pickle are taken to give back what was written;
-- the names of files are compared as texts. Handles and versions do not wrap. Sizes and offsets of
-- chunk files stay below 2 GB, so that `int32_t` holds them, and are not negative. gRPC refuses a
-- message of more than 4 MB, and the program does not raise that limit: a copy and an append of
-- the client of more data than that fail here, and the theorems on them and on reads of several
-- chunks ask for at most 4 MB less 1 KB, which leaves room for the other fields. The calls of a
-- chunkserver themselves (`read_chunk`, `write_chunk`, `append_chunk`) take and answer any size:
-- what is shown of them is of requests, paddings and answers that are delivered. A call of a
-- chunkserver that is not running fails as UNAVAILABLE, and an exception in a handler reaches the
-- caller as UNKNOWN.
-- `read` of the client loops on fuel, as many rounds as bytes were asked for. That is enough, since
-- each round asks for a byte at least. Every other loop runs over a finite list.
--
-- Not modelled: the gRPC server and its threads, the cache of connections and stubs, the prints, the
-- mutexes of a chunkserver, and `evict_stale` of its buffer, which nothing calls.
mod Prelude
pub mod Dict
pub mod Text
pub mod Metadata
pub mod Oplog
pub mod Locks
pub mod State
pub mod Lease
pub mod GarbageCollection
pub mod Replication
pub mod Heartbeat
pub mod Startup
pub mod Files
pub mod Locations
pub mod Cache
pub mod Bytes
pub mod Storage
pub mod Checksum
pub mod Buffer
pub mod Chunkserver
pub mod HeartbeatSender
pub mod Client
pub mod System
mod Examples
