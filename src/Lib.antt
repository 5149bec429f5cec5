-- ===== src/Lib.antt =====
-- DSignal: a gossip network in Go with private messages under the Double Ratchet, topic-based
-- envelopes (Whisper) and a Kademlia store.
--
-- The parts and their files. A node gossips packets (gossiper/); the other parts run over it:
-- envelopes of whisper/ travel as gossip packets, the Double Ratchet of adssignal/ travels in
-- envelopes, and the store of storage/ uses packets of its own.
--
-- - Base: shared names, lists over native numbers, Go maps as association lists, floating point
--   numbers as they are compared, bitwise operations, hex and little endian encodings.
-- - Gossip.Packet: the structs of gossiper/header.go and `getTypeFromGossip`.
-- - Gossip.Clock: gossiper/status.go, `storeMessage` of gossiper/gossiphandler.go and
--   `handlePeerStatus` of gossiper/rumormongering.go. Synced is about the clock against the storage,
--   Exchange about the answers, Storing about what is kept.
-- - Gossip.Node: `HandleGossipMessage`, `CreateRumorMessage` and `SendWhisperStatus` of
--   gossiper/gossiphandler.go. What is sent or started is a list of actions.
-- - Gossip.Routing: gossiper/routinghandler.go and `processPrivateMessages` of
--   gossiper/mainhandler.go; Freshest is about the table, Forward about the hops in a network.
-- - Gossip.Peers: gossiper/peers.go and `DifferenceString` of helpers/generalhelpers.go.
-- - Gossip.Search: `forwardSearchRequestWithBudget` of gossiper/filesearching.go; Local is the rest of
--   that file.
-- - Gossip.Files: gossiper/filehandler.go and the slices of helpers/generalhelpers.go; Files.Download is
--   gossiper/filesharing.go. Buffer and Rebuilt are about the buffer of a download, Chunks and RoundTrip
--   about a file that one node indexes and another downloads.
-- - Gossip.Main: the loops of gossiper/mainhandler.go, Client the one for the messages of the client; Data
--   is about a request for data and its reply, Searches about a search request and its repetition.
-- - Gossip.Chain: the block hashes of gossiper/utils.go, the state of gossiper/blockchainhandler.go,
--   and `isTxBlockValid`, `checkIfConsensusReached` and the end of `qscRound` of gossiper/qsc.go.
--   History is about the committed blocks, Decision about what is decided, Ending about what the end
--   of a round leaves alone.
-- - Gossip.Tlc: the handlers of gossiper/blockchainhandler.go.
-- - Gossip.Rounds: gossiper/tlc.go; Qsc is `qscRound` and the publishing of blocks.
--   Majority is about the confirmations of a round, Arrivals about packets that come in between,
--   Sources about where acks and confirmations come from,
--   Safety about one event, Passes and Progress about a whole round, Consensus about the three rounds of QSC.
-- - Signal.Elliptic, Kdf, Aead: adssignal/adsElliptic.go, adsKDF.go and adsAEAD.go.
-- - Signal.Ratchet: adssignal/adsDoubleRatchet.go. Keys names the keys of a chain, Delivery and
--   Session are about messages that arrive, Faults about those that should not, Stored about the
--   form on disk, Opening about the first message of a connection.
-- - Signal.Identity: adssignal/adsECDSA.go and the identities of adssignal/adsX3DH.go; Signed is about
--   their signatures, Stored about their compressed forms.
-- - Signal.X3dh: the key agreement of adssignal/adsX3DH.go; Texts is about the opening message,
--   Agreement about the two sides.
-- - Signal.Handler: adssignal/signalhandler.go, Incoming the packets that come from Whisper;
--   Conversation is about two handlers, Unanswered about a second message before the answer.
--   Signal.Ratchet.Chains and Exchange are about the ratchets that they hold.
-- - Whisper.Bloom, Topic, Routing, Envelopes, Node: whisper/bloomfilter.go, topic.go, routing.go,
--   envelope.go and whisper.go.
-- - Whisper.Filters: whisper/filter.go; Topics is about the filters of a topic, Notified holds what an
--   envelope does to the filters, with its opening of whisper/envelope.go and whisper/message.go.
-- - Storage.Bytes, Hash, Chunks, Table, Message: storage/utils.go, storage/chunk_store.go,
--   storage/rtable.go and storage/message.go. Table.Bounded is about one bucket, Table.Updated about a
--   whole update.
-- - Storage.Node: storage/handlers.go, storage/channel_store.go and the sending of storage/store.go.
-- - Storage.Files: `StoreFile` and `RetrieveFile` of storage/store.go; Blocks is about reading one chunk,
--   Unchecked about chunks with another hash.
-- - Storage.Lookup: storage/lookup.go, Nodes `NodeLookUp` and Values `ValueLookUp`. Settled and Measure
--   are about one step, Answered about the nodes that have answered, Returns about a whole look-up of
--   nodes, Unheld about a missing chunk.
--
-- Conventions. A method runs under its lock, so it is one function on the state; a goroutine that
-- it starts is an action or a function of its own. A Go string and a byte slice are lists of
-- numbers; a panic is `none`, or a result of its own. A uint32 or uint64 is a number, and the code
-- that can wrap is written with `%`. A loop over a Go map takes the order of an arbitrary list.
-- Random draws, generated keys and the time are arguments. What a waiting goroutine receives is a list
-- of events, in any order. Packages that are not part of the
-- repository (elliptic curves, HKDF, HMAC, AES, gob, ECDSA, protobuf, SHA3) are fields of
-- `Signal.Primitives.Primitives`, `Signal.Identity.Signatures` and `Whisper.Envelopes.Encoding`, and
-- sha256 is an argument of the block hashes and of the file handler, and the sha packages are `Storage.Hash.Sha`; what the theorems use of them is
-- `Signal.Primitives.Laws` and `Signal.Identity.Signed.Accepts`.
--
-- Fuel. `scan` gets the number of stored messages, and passes each at most once. The search budget's
-- loop gets the number of peers, of which each round takes one away. `travel` gets more than the hop
-- limit. `node_look_up` gets what `enough` says
-- (Storage.Lookup.Returns). `walk` gets one round more than there are committed blocks, which is enough on a
-- chain (Gossip.Chain.History). The other loops are by structure or count their rounds.
--
-- Not modelled: sockets, files, JSON, printing, the web server and the client; the making of Whisper
-- messages and the Whisper API. A download takes the replies that come before a timeout from a
-- parameter. `StoreFile` and `RetrieveFile` take what `storeChunk` and `ValueLookUp` return from a
-- parameter, `Storage.Files.ChunkNetwork`; waiting for replies is left out.
pub mod Base
pub mod Gossip
pub mod Signal
pub mod Storage
pub mod Whisper
