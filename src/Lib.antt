-- ===== src/Lib.antt =====
-- A replicated key-value store over Raft: the node of internal/raft, the store of internal/storage,
-- the service, the transport and the state machine of internal/server, the messages of api, and the
-- two programs of cmd.
--
-- Parts. A node (internal/raft/node.go) keeps its log above a snapshot, its term and vote, and
-- applies committed commands to a state machine (internal/server/state_machine.go). It is driven by
-- the handlers of three messages, by elections, by clients' proposals and reads and by the apply loop;
-- it saves what it must not forget through a store (internal/storage/wal.go) before it answers. The
-- service (internal/server/service.go) turns the messages of api/rpc.go into calls of the node, and
-- the transport (internal/server/transport.go) the node's calls of a peer into such messages. The
-- client (cmd/kvctl/main.go) looks for the leader by the hints in the service's answers, and the
-- server (cmd/server/main.go) reads the configuration that a node is made from.
--
-- Files. Storage/Types is internal/storage/types.go, Storage/Wal and Storage/Store are
-- internal/storage/wal.go: the records and bytes of the log, and the methods over the three files,
-- with the theorems on them in Wal/Lines, Wal/ReadBack, Wal/Crash, Load and Unreadable. Api is
-- api/rpc.go. Server/StateMachine is the state machine, with Laws its theorems, Server/Codec
-- internal/server/command_codec.go, Server/Service the service with what clients can rely on in
-- Answers, and Server/Transport the transport with Pool, what holds of its connections, and Calls,
-- a call and the handler that it reaches. Raft/Types and Raft/Errors are internal/raft/types.go
-- with the interfaces to store and state machine, which are records of functions over their state:
-- a store may answer any operation with an error. The rest of Raft is internal/raft/node.go: Node
-- is the struct and what reads it or touches no store, Log the accessors of the log, Merge
-- `mergeEntriesLocked` and `validateEntriesLocked`, Persist the hard state and the transition to
-- follower, Vote `HandleRequestVote`, Append `HandleAppendEntries`, Commit `advanceCommitLocked`,
-- Election `startElection` and `becomeLeader`, Propose `Propose`, Apply `applyReady`, Compact
-- `persistSnapshot`, Install `HandleInstallSnapshot`, Replicate the critical sections of
-- `replicateToPeer`, SendSnapshot `sendSnapshot`, Rounds the runs of `replicateToPeer` and
-- `replicateToPeerForRead`, Barrier `ensureQuorum`, Read `LinearizableGet`, Status `Status`,
-- Recover and Configure `NewNode`. Raft/Progress has the invariant of a node and that each
-- operation keeps it, Raft/System the critical sections as steps in any order, Raft/Guarantees what
-- single operations promise and, in Serving and CaughtUp, a node whose apply loop is at work while
-- others read its machine, and, in Lifetime and Leaders, the members of a cluster with their
-- restarts and elections, Raft/FileStore the store over files as a node's store, and Raft/Examples
-- concrete nodes with the theorems at them. Cmd/Text has the functions of package strings that the
-- programs use, Cmd/Kvctl the client, with Retry its search for the leader and Cluster a write on a
-- cluster of nodes, and Cmd/Flags the server's configuration. Prelude has the tests, lists, maps,
-- integers and machine words that all share.
--
-- State. A method that holds the node's lock is a function from the node to the node and its result;
-- the store's state is a field of the node. Where a method releases the lock, it is several critical
-- sections, and what other threads do in between is an argument (`other`), a part of the world that
-- the calls change (`World`), or another step. A read is a list of passes, each with the node as its
-- sections see it, and a read barrier the list of what its goroutines do under the lock of its
-- counters. Terms and indexes are natural numbers with the increment of a uint64 written out
-- (`inc64`); theorems that need an index not to wrap say so. A Go map with a zero default is a
-- function, another one an association list. `(value, ok)` is an Option, `(value, error)` a Result or
-- a pair with an Option. Deadlines are numbers, and the random delay is a function that comes with the
-- clock (`Timer`). A waiter's channel is a number, and `delivered` lists what was sent; a connection
-- is a number with its address.
--
-- Fuel. `run_start`, the loop of `conflictIndexLocked`, gets the index that it starts at, which is
-- one more than the steps that it can make. `apply_ready` gets any fuel; one more than the number of
-- committed entries to apply is enough, as its theorem says. `send_chunks` gets any fuel; two more
-- than the bytes of the body are enough for a follower that takes what it asked for, and its theorems
-- say when no fuel is. `replicate_loop` and `retry` count the attempts that the source counts. The
-- wait for a slot (`acquire`) and a read that has not returned give none.
--
-- Not modelled: the goroutines and their timers, the system calls behind the files, the gRPC library
-- with the registration of the services and the stubs in api/rpc.go, `main` of the server, and
-- `waitUntilApplied`, which only a test calls. encoding/json, bytes.TrimSpace and hash/crc32 are
-- parameters of the log (`Codec`); the theorems ask that a line is read back from what was written of
-- it and has no newline in it (`IsLawful`). encoding/json on a command (`CommandCodec`), on a
-- snapshot's map and on statuses, `%q`, strconv.Atoi, time.ParseDuration and the calls over a
-- connection are parameters as well. The store of a node is any `Store`; that a restart finds the vote
-- asks it to load what it saved (`Remembers`), as the store over the files does.
pub mod Prelude
pub mod Storage
pub mod Api
pub mod Server
pub mod Raft
pub mod Cmd
