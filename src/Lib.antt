-- ===== src/Lib.antt =====
-- Gno IBC: the Union IBC host and its access control, modelled and verified.
--
-- The program has a proxy realm that owns the host's state (gno.land/r/onbloc/ibc/union/core) and a
-- child realm with the protocol logic (core/v1). Relayers call the host's handlers; the host verifies
-- proofs through light clients, keeps connections, channels and commitments, and calls the apps that
-- registered a port. The access realm (gno.land/r/onbloc/ibc/union/access) keeps the roles that the
-- proxies ask for, by the access manager (gno.land/p/onbloc/access/manager). Five Go programs under
-- tools/ generate fixtures, test values and protobuf code for the realms.
--
-- Files:
--   Prelude: Boolean tests on native numbers, byte strings, maps as association lists, results.
--   Access/TimePoint, Delay, Role, Target, State: the access manager; a TimePoint is the 64-bit pattern
--     of its int64. Access/Realm: the functions of the realm, each with the caller and the block time.
--   Encoding/Word, Abi: gno.land/p/onbloc/encoding/abi/encode.gno. Hex, Decimal: what the program uses of
--     Go's packages encoding/hex and fmt.
--   Union/Types, Msgs, Commitment: gno.land/p/onbloc/ibc/union/types, with the commitment paths.
--   Union/Core/World: the Store of core/store.gno, the chain parameters, the events, and the state of
--     light clients and apps. Exec: a call changes the world and returns, or panics; a panic reverts the
--     transaction, so an error has no world. Store: core/store.gno. Clients, Connections, Channels,
--     Packets: the handlers of core/v1, one function for each (ChannelOpenAck is channel_open_ack);
--     Packets has a child for each phase of a packet.
--   Union/Core/Calls: the handlers as data, and histories of successful calls.
--   Union/Core/Protocol: the abstract protocol, the steps by which the host's store may change.
--   Union/Core/Handlers: each handler follows the protocol. Safety: what follows for packets.
--   Tools/Fixtures: tools/cometbls-fixtures/main.go. Wire is its protobuf encoder, with a reader; Iavl the
--     tree, with a verifier; Sets makeFixtureSet; Main the fixture sets and the output.
--   Tools/TestClient: tools/gen-ibc-test-client/main.go. Vars and Args are its constants and arguments,
--     Print its output; Agreement compares its encoders with the realm's; Read is a reader of tuples.
--   Tools/Protogen: tools/protogen/main.go. Text is what it uses of Go's text packages, Parse its tags and
--     structs, Dir its directories; Words, Tags, Fields and Structs prove what is read.
--   Tools/StorageProof, Tools/EmbeddedProof: the main.go of tools/gen-ethereum-storage-proof-fixture and of
--     tools/gen-ethereum-embedded-node-proof-fixture.
--
-- Parameters, in the record Env: keccak256, the packages seqid and bptree, the light clients and the
-- apps. A light client changes only its own state. An app acts on the whole world, since it may call
-- back into the host; that its callbacks change the host's store by protocol steps alone is the named
-- hypothesis AppsReach. That the hash has no collision is the named hypothesis CollisionFree, that a
-- tree gives back what was set last is TreeLaws, and that ids are given in order under keys of their
-- own is SeqLaws. The tools have SHA-256, keccak256 and the quoting of the verb %q as parameters; a
-- record Geth has what they call of go-ethereum, and Env of Dir the file system, Go's parser, the
-- template and gofmt.
--
-- Numbers: ids, heights and timestamps are numbers in the ranges of their types, with the conversion
-- of a sequence number to 32 bits and int64 sums written out. Loops are structural recursion, but for
-- those of buildIavlRoot, which takes as many rounds as there are leaves, of a varint, which takes as
-- many as its number, and of orderProof, which takes one more than there are nodes: all are proved to
-- be enough. Twenty digits are enough for a decimal uint64. Lengths of slices are below 2 ^ 64, which
-- batch calls and the readers of tuples carry.
--
-- Not modelled: queries and rendering, the spelling of event attributes, the setters of the event
-- configuration, which keep its value length above 0, the proxy's gates and its upgrades, the light clients themselves, the ZKGM app, ABI decoding, RLP and Merkle proofs.
pub mod Prelude
pub mod Encoding
pub mod Access
pub mod Union
pub mod Tools
