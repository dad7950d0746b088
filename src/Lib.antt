-- ===== src/Lib.antt =====
-- AstraDB, a Redis-compatible database in C++: its transactions with optimistic locking, the request
-- protocol, the metadata of keys, the containers below them, the commands on lists and streams, clients
-- that wait, and access control.
--
-- Parts and how they interact. A connection reads bytes from a socket, keeps those that are not a
-- whole request yet, and turns the others into commands with `RespParser`. The executor of a worker
-- takes one command at a time: outside of a transaction it runs it on its shard of the database or
-- forwards it to the worker of the key; in a transaction it queues it, and EXEC runs the queue
-- unless the version of a watched key has changed. The versions come from the metadata that the
-- database keeps with every key. A handler turns arguments into calls on the database and its
-- results into a reply; BLPOP and BRPOP on empty lists leave their client with the blocking manager,
-- and a push pops its element again for such a client. Streams keep entries under growing ids, and
-- groups of consumers read them from a position that they share. The access control asks the rules
-- of a user whether a command or a key is allowed. Workers share nothing, so that a worker's state
-- is a value and each operation a function from state to state.
--
-- Files:
--   Prelude          numbers, Booleans, lists, options, strings as lists of bytes, integers
--   Abseil           `absl::flat_hash_map` as an interface with laws; a list of pairs that meets them
--   Container.DashMap      src/astra/container/dash_map.hpp: `Insert`, `Get`, `Remove`, ...
--   Container.LinkedList   src/astra/container/linked_list.hpp: `PushLeft`, `Range`, `Trim`, ...
--   Container.Streams      src/astra/container/stream_data.hpp: `StreamData`, `StreamId`
--   Storage.Metadata       src/astra/storage/key_metadata.hpp, `KeyMetadata`
--   Storage.Manager        the same file, `KeyMetadataManager`
--   Protocol.Types, .Builder, .Parser   src/astra/protocol/resp/: values, writer and the two parsers
--                    (`Parse` and `ParseCommandFromArray`)
--   Protocol.FindCrlf      src/astra/base/simd_utils.hpp, `FindCRLF`
--   Server.TransactionState   src/astra/server/transaction_state.cpp, one function a method
--   Server.Transactions    src/astra/commands/redis/transaction_commands.cpp, one function a handler
--   Server.Connection      src/astra/server/worker.hpp, `Connection::ProcessCommands` and its buffer
--   Server.Worker    src/astra/server/worker.hpp, `ExecutorLoop`: one command of a client
--   Cluster.Slots, .Shards   src/astra/cluster/shard_manager.hpp: `HashSlotCalculator`, `ShardManager`
--   Eviction         src/astra/core/memory/eviction_strategy_2q.hpp, `EvictionStrategy2Q`
--   Security.Users, .Acl   src/astra/security/acl_manager.hpp: `AclUser` and its rules, `AclManager`
--   Commands.Scan    src/astra/commands/scan_manager.hpp, `ScanStateManager`
--   Commands.Blocking      src/astra/commands/blocking_manager.cpp, `BlockingManager`
--   Commands.Database      src/astra/commands/database.hpp: Deletion, Strings, Hashes, Sets and Lists, one
--                    function a method; Lists.Spec has the lists that a client sees
--   Commands.Streams       src/astra/commands/redis/stream_commands.cpp, one function a handler
--   Commands.ListCommands  src/astra/commands/redis/list_commands.cpp, one function a handler, over an interface
--                    that the database and plain lists meet; Pushes has the ones that wait and wake
--   Tests            runs on small inputs, and each theorem that has hypotheses applied to one
-- A function has the name of the method, in lower case with underscores. A method that changes its
-- object takes the object last or first and returns the new one, in a pair with its result.
--
-- Numbers. A `uint64_t`, `uint32_t` or `uint8_t` is a natural number with `% 2 ^ w` where the code
-- can wrap; an `int64_t` is an integer. The clock is an argument `now`, in milliseconds.
--
-- Bounds and fuel. `Parse` calls itself for the elements of an array and takes fuel, one unit a level
-- of nesting; a level has read its type byte, so the length of the input is enough. The loop of
-- `ProcessCommands` takes one unit a round, and every round consumes a byte. The search over chunks of
-- 16 bytes counts the chunks. Every other loop runs along a list or a count.
--
-- Parameters. What a hash map does (its laws), the number formats of `absl::StrCat` and
-- `absl::SimpleAtod`, the numbers that `absl::SimpleAtoi`, `std::stoull`, `std::strtoll` and
-- `std::stod` read, the change of letters to lower and upper case, the index that SPOP draws, the
-- case-insensitive comparison of names, the command registry, the routing of keys, the refusal of a
-- command for the cluster or for permissions, and the execution of a command on the shard's database
-- (in the worker) stand as parameters, as do node identifiers, the timers of waiting clients, what
-- is left of a string that was moved, the share of the keys that the 2Q policy takes for new, and
-- the sorted sets, streams, vectors and documents in the tables of a database (Commands.Streams has
-- the table of the streams by itself).
--
-- Not modelled: the command handlers other than those of transactions, lists and streams, and of
-- these XINFO, XCLAIM, XAUTOCLAIM, XPENDING, LPUSHX, RPUSHX, LPOS, LMOVE, LMPOP, BLMOVE, BLMPOP and
-- BRPOPLPUSH; sorted sets, vector indexes, persistence, replication, gossip, the other eviction
-- policies; sockets, threads and the queues between them; metrics, logs and configuration. A
-- database is in the mode kRedis without RocksDB; the memory tracker, which counts bytes and keeps
-- estimated sizes in the metadata, the eviction manager, and the batch callback by which SINTER asks
-- other workers are left out. What a worker makes of `Send` through the connection that a waiting
-- client saved is left open. `FindCRLF` is the variant for SSE4.2 without AVX2. The `reserve` calls
-- are left out.
pub mod Prelude
pub mod Abseil
pub mod Container
pub mod Storage
pub mod Protocol
pub mod Server
pub mod Cluster
pub mod Security
pub mod Eviction
pub mod Commands
pub mod Tests
