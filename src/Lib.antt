-- ===== src/Lib.antt =====
-- A verification development for shitty-redis, a Redis server in Go.
--
-- The program. A connection's bytes are decoded into commands (app/resp/resp.go), the arguments are
-- checked and named (app/com.go), and a handler (app/handlers.go) runs on the keyspace. A list value
-- is a quicklist (app/structures/list): a chain of nodes, each with a listpack
-- (app/structures/listpack), which keeps its items as entries in one byte slice. Answers are encoded
-- by app/resp/resp.go again. The loops of the connections (app/main.go) tie these together: a master
-- passes each set on to its replicas, and a replica joins a master by a handshake (app/server).
--
-- The files.
--   Base, Base/*      shared names, Boolean tests, lists and integers, and Run: how a Go function
--                     ends, with a value (ok), an error (err), a panic (panic), or a loop on fuel
--                     that ran out (stuck).
--   Strconv, Strconv/RoundTrip
--                     strconv's ParseInt, Atoi and FormatInt in base 10, and what they do to each
--                     other.
--   Listpack/Entry    app/structures/listpack/entry_helpers.go and utils.go: GetEntry and its parts.
--   Listpack/Pack     app/structures/listpack/listpack.go: PushR, PushL, Read, PopL. The two header
--                     fields are numbers, kept below 2 ^ 32 and 2 ^ 16 as PutUint32 and PutUint16
--                     do. Index expressions that leave the slice panic.
--   Listpack/Codec, Codec/*
--                     what one entry decodes to, for the seven shapes of an integer and of a string.
--   Listpack/Contents, Contents/*
--                     the relation Holds between a list of items and a listpack, and the operations
--                     on it.
--   Listpack/Stored   the text that comes back for an item.
--   Listpack/Ends     the loop of Read on arbitrary bytes.
--   Quicklist/Ops     app/structures/list/list.go and handlers.go: New, RPUSH, LPUSH, LRANGE, LLEN,
--                     LPOP. The chain of nodes is the list of their listpacks.
--   Quicklist/Models  the relation Models between a list of items and a quicklist; Placing, Rpush,
--                     Lpush, Lrange, Lpop, RoundTrip and Panics are about the operations.
--   Resp/Wire         app/resp/resp.go: RESPEncoder (resp_encoder) and RESPDecoder (resp_decoder),
--                     over the bytes that the reader has still to give.
--   Resp/Decode, Resp/RoundTrip
--                     the decoder alone, and behind the encoder.
--   Command/*         app/com.go: Com, GetCom and the Validate methods (Fields, Name, Validate), and
--                     what the handlers of app/handlers.go read of the arguments (Reads); Arguments
--                     and Xread are about the two together.
--   Radix/Tree, Radix/Ops, Radix/Search
--                     app/structures/radix: RaxNode and Insert, Get, GetMax, GetMin, FindPredRax and
--                     FindSucRax. A node's Children are an association list.
--   Radix/Finds, Radix/Inserts
--                     what Get finds behind Insert.
--   Stream/Types      app/structures/stream/stream.go: Stream. The radix tree holds pointers to
--                     listpacks; here they are indexes into the list of the listpacks.
--   Stream/Ids        app/structures/stream/utils.go, with the choice of an id by xadd of
--                     app/handlers.go; Order and Wrapping are about it.
--   Stream/Pack       app/structures/stream/stream_listpack: the listpack of a stream; Entries,
--                     Reading, Ranges and Making are about it.
--   Stream/Ops        app/structures/stream/stream.go: GetLastId, XADD, XRANGE and XREAD; Adding and
--                     Hanging are about them.
--   Keyspace/Store    app/structure.go: the keyspace, with the waiters and the timers, as a record Db.
--   Keyspace/Strings, Keyspace/Lists, Keyspace/Blocking, Keyspace/Streams
--                     app/handlers.go and app/utils.go: ping, echo, type, get, set, incr and expiry;
--                     the list commands; blpop; xadd, xrange and xread with its waiters. The handlers
--                     of texts and lists take their arguments from the Com of Command; those of
--                     streams do so in Keyspace/Args. Keyspace/Reads is about the handlers of one key
--                     and the reads of Command/Reads.
--   Keyspace/Laws, Keyspace/Values, Keyspace/Serving, Keyspace/Pushing, Keyspace/Reading,
--   Keyspace/Waiters, Keyspace/Waiting, Keyspace/Waking
--                     what they do to the keyspace and to the waiting clients.
--   Txns/Ops          app/txns.go, with multi, exec, discard, watch and unwatch of app/handlers.go and
--                     the queueing of app/main.go: the states of all connections and the map of
--                     watchers. A connection's number stands for its pointer to a Txn. exec is its
--                     checks and its end here; Main/Dispatch runs its queue.
--   Txns/Watching, Txns/Enlisted, Txns/Abort, Txns/Touched
--                     interleavings of the connections' commands as lists of events.
--   Server/Config     app/server/config.go: the roles, and the configuration that the flags give.
--   Server/Repl       app/server/master.go, app/server/replica.go and the state of
--                     app/server/server.go: MasterRepl, ReplicaRepl, Server, Propogate. A connection
--                     is a number, and a write is a pair of it and bytes.
--   Server/Rdb        app/RDB/empty_rdb.go: EmptyRDB.
--   Server/Handshake  Handshake of app/server/server.go, on the bytes that the master sends and on how
--                     many of them each Read finds.
--   Server/Replies    app/repl_handlers.go: replconf, psync, ack and wait; info of app/handlers.go.
--   Main/Dispatch     HandleCom of app/com.go on the whole state, a Node: the server and the keyspace;
--                     exec of app/handlers.go with the commands that it runs.
--   Main/Loop         app/main.go: a round of HandleClientConn and a round of HandleReplConn, behind
--                     the decoder, with what they write.
--   Main/Conns        the two loops on the bytes that a connection brings.
--   Main/Setting      a set in a round, and Effects what it does to the keyspace; Locking is about a
--                     master's lock, Feeding about the sets that a replica is sent, Joining about the
--                     handshake; Requests, Turns, Quiet, Ending and Sessions about transactions.
--   Main/Starting     Start of app/server/server.go up to where it listens: the handshake, and the
--                     replica's loop behind it.
--   Tests/*           concrete runs.
--
-- Bounds and fuel. The loop of Read is on fuel: it gets the length of the slice and one more,
-- each round takes a byte at least, and Ends is about that. The loop of ReadAllInRange gets the
-- length of the slice and one more as well; each round reads an item at least, which takes two
-- bytes. The loops of XRANGE and XREAD take their fuel as an argument, since they need not end.
-- The loops of the connections run for as many rounds as they are given. All other loops are
-- structural. Items are below 2 GiB (IsItem), since the code adds lengths in 32 bits; an item is
-- Storable if a new listpack takes it. Texts on the wire are below 2 ^ 63 bytes (IsText). The
-- parts of an id, and their differences, wrap around as uint64.
--
-- Waiting. blpop and xread are cut at their select: the part before, the case of the channel and
-- the case of the timeout. A channel is a number; the values sent into the channels of blpop are
-- a list, and the channels of xread that have a key in their buffer another. That a timeout or a
-- timer passes is an event; how long it takes is not modelled.
--
-- The standard library. TrimSpace and ToLower are modelled on ASCII: bytes from 128 on are no
-- space and have no other case. Running out of memory is not modelled.
--
-- Replication. NewMaster leaves the Mu of a master a nil pointer, and nothing sets it. The files on
-- replication are therefore about a replica and the bytes that reach it: the answers, the file and
-- the sets in the form in which the code of a master writes them.
--
-- Not modelled: main, and the end of Start of app/server/server.go, which listens and accepts;
-- the dial of Handshake; the flags, of which the values are arguments. The rounds of the
-- connections are sequences of steps: that two of them run at once, and the locks that keep them
-- apart, are not modelled, but for the lock of a master, whose states are nil, free and held. A
-- lock that is waited for, and a command that waits while exec runs it, are marked stuck. The
-- texts of errors are arguments of the loops. The choice of the answers of xread follows the
-- block option, of which only whether its duration parses is an argument; a duration of 0 has no
-- timeout event. The lock of the keyspace, goroutines, sockets, files and timers are outside the
-- model. The block duration that xread reads when it has no entries is not among its reads in
-- Command. A field count below 0 in an entry of a stream, and a prefix in the radix tree that is
-- longer than what is left of a key, are marked stuck.
pub mod Base
pub mod Strconv
pub mod Listpack
pub mod Quicklist
pub mod Resp
pub mod Command
pub mod Radix
pub mod Stream
pub mod Keyspace
pub mod Txns
pub mod Server
pub mod Main
pub mod Tests
