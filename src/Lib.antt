-- ===== src/Lib.antt =====
-- GrumpyDB: an embedded document database with a write-ahead log, and a cluster of replicas on top
-- of it. The core crate keeps documents as binary values in slotted pages, logs every page write
-- with a hybrid logical clock value and a vector clock, and builds sortable keys for its secondary
-- indexes; the replication crate ships the log to the other nodes and follows how far they are.
--
-- How the parts interact. A document is framed and encoded (document/mod.rs, document/codec.rs)
-- and stored in a page (page/slotted.rs, page/mod.rs). The page write is logged as a record
-- (wal/record.rs), which carries the node, the clock value that `HlcClock` issued (wal/hlc.rs) and
-- the vector clock of the database (wal/vclock.rs), and which recovery and the replicas decode.
-- Pages are allocated, read and written through the page manager (page/manager.rs), which keeps
-- the freed ones in page 0; a long tuple is a chain of its pages (page/overflow.rs). At startup
-- recovery writes the images of the log back through it (wal/recovery.rs). A replica receives
-- records in frames (frame.rs), observes the clock value of each origin to skip what it has
-- applied (wal/applied_set.rs, idempotent.rs), and reports it to the lag tracker of the leader
-- (lag_tracker.rs); the writer assignment says which node may write to a collection
-- (writer_control.rs), the ring which nodes hold a key (ring.rs), and concurrent values of a key
-- are merged (document/crdt.rs); values that are to be repaired on a node wait in a queue
-- (cluster/read_repair.rs). Roles say who may do what (auth/role.rs). A client sends a line of
-- text, which is parsed to a command (parser.rs, command.rs); the session of the connection
-- authorizes the command by the roles of its claims (session/mod.rs), and the answer is sent as a
-- response (response.rs). The indexes are B+ trees, whose nodes are pages (btree/node.rs) and hold
-- keys of two types (btree/key.rs).
--
-- The files, and the code that they model:
--   Prelude and its children: shared lists, bytes and fixed-width integers, `i64`, orders, maps as
--     entries in the order of their keys, and overwritten slices.
--   Error: src/error.rs, the variants of `GrumpyError`. A formatted text is a value that holds what
--     it prints.
--   Document/Text, Document/Value, Document/Codec: src/document/value.rs and src/document/codec.rs.
--     A `String` is its bytes, which are UTF-8; an `f64` is its bits; the entries of an object are in
--     the order of the keys, as in a `BTreeMap`. `decode_recursive` takes the levels that are left
--     where the source counts those that are used: it starts with 65, the source's depths 0 to 64.
--     Limits states what Rust's types and the limits of the decoder say of a value.
--   Document/Framing: src/document/mod.rs.
--   Document/Crdt: src/document/crdt.rs. The JSON of three of the kinds is a parameter, a decoder
--     and an encoder for each payload type; it is read back as it was written, with sorted maps.
--   Index/Encoding: src/index/encoding.rs; Naming: src/naming.rs.
--   Wal/Hlc: src/wal/hlc.rs. The mutex makes the calls a sequence, so that the clock is explicit
--     state; the reading of the wall clock is an argument of each call, an error included.
--   Wal/VClock: src/wal/vclock.rs. Wal/Record and Wal/Legacy: src/wal/record.rs, records of version
--     2 and 1 and the header page. CRC-32 is a third-party function, and a parameter.
--   Wal/Applied: src/wal/applied_set.rs. The text of a UUID is a parameter.
--   Wal/Recovery: src/wal/recovery.rs, on the two page managers; the loops carry the files, the
--     applied set and the counts. Interrupted is about runs that a crash stops between two records.
--   Page and Page/Header: src/page/mod.rs; Page/Slotted: src/page/slotted.rs.
--   Page/Manager: src/page/manager.rs. The file is a function from page numbers to bytes; a method
--     gives the state that it leaves, also where it fails (Prelude/Stateful).
--   Page/Overflow: src/page/overflow.rs. The two loops over a chain take fuel, and end as finished,
--     panicked or still running; more fuel than the chain has pages is enough.
--   Replication/Writer and Replication/Lag: grumpydb-replication/src/writer_control.rs and
--     grumpydb-replication/src/lag_tracker.rs; Replication/Frame: grumpydb-replication/src/frame.rs;
--     Replication/Idempotent: grumpydb-replication/src/idempotent.rs, over any inner applier.
--   Ring: grumpydb-ring/src/ring.rs and grumpydb-ring/src/hash.rs, for nodes that are UUIDs. Murmur3,
--     the text of a vnode and the binary searches of the standard library are parameters, of which
--     nothing is assumed.
--   Auth/Role: grumpydb-server/src/auth/role.rs.
--   Cluster/ReadRepair: grumpydb-server/src/cluster/read_repair.rs. The file is its lines, or missing.
--   Auth/Session: grumpydb-server/src/session/mod.rs, with the claims of
--     grumpydb-server/src/auth/jwt.rs.
--   Protocol/Text and Protocol/Decimal: the methods of `str` and the decimal numbers of the standard
--     library that the parsers use; a text is its characters. Protocol/Command:
--     grumpydb-protocol/src/command.rs. Protocol/Words, Documents, Admin, Cluster and Parser:
--     grumpydb-protocol/src/parser.rs. Wire and Line say what a line of a command is, as the client
--     formats it. Protocol/Response: grumpydb-protocol/src/response.rs, on the bytes of a text.
--   Btree/Key: src/btree/key.rs, the trait as an interface with its laws, and its two key types.
--     Btree/Node: the nodes of src/btree/node.rs in memory, and the searches and splits of
--     src/btree/ops.rs. Btree/Layout: the nodes as pages, and how many entries a page holds.
--   Witnesses: the theorems at concrete inputs.
--
-- Integers of w bits are numbers below 2 ^ w, with the wrap-around written out where the source can
-- wrap. The decoder's levels bound its nesting; the chunks of a tuple take its length as fuel, the
-- digits of a number the number. The loop over the concerns of a database has three rounds, since
-- each concern may stand once; the parser of a response takes the length of its input, since every
-- nested response stands behind a byte of its parent.
--
-- Not modelled: the operations of the B+ tree over pages, the buffer pool, the collections and
-- databases over them, the log's writer, the sessions and tasks of replication, the coordinator and
-- the other parts of the servers, the clients and the tools. Much of that is file, network or thread
-- I/O; the rest stands on parts that are not here. Calls of the file system succeed where they are
-- modelled.
pub mod Prelude
pub mod Error
pub mod Naming
pub mod Document
pub mod Index
pub mod Wal
pub mod Page
pub mod Replication
pub mod Protocol
pub mod Ring
pub mod Auth
pub mod Cluster
pub mod Btree
pub mod Witnesses
