-- ===== src/Lib.antt =====
-- Verification of ezk, libraries for SIP, RTP, ICE and SDP in Rust. Paths are from the root of the
-- repository.
--
-- The parts and how they interact. sip/sip-types holds the data of SIP messages: the headers, a
-- multimap from names to values (Sip/Headers for header/headers.rs), status codes (Sip/StatusCode
-- for code.rs), methods (Sip/Method) and URI parameters (Sip/Params for uri/params.rs).
-- sip/sip-core matches messages with transactions by keys (Sip/TsxKey for transaction/key.rs); the
-- transactions keep sending until they are answered (Sip/ClientTsx for transaction/client.rs,
-- Sip/ClientInvTsx for transaction/client_inv.rs, Sip/ServerTsx for transaction/server.rs,
-- Sip/ServerInvTsx for `respond_failure` of transaction/server_inv.rs). On stream transports the
-- bytes are cut into messages first (Sip/Streaming for transport/streaming/decode.rs and the
-- PullParser of sip/sip-types/src/msg.rs). Sip/Endpoint is the dispatch of endpoint.rs, over the
-- map of transaction/mod.rs. A request that no transaction takes goes to the layers; the dialog
-- layer of sip/sip-ua orders it by its CSeq and offers it to the usages (Sip/Dialog for
-- dialog/layer.rs and dialog/key.rs). media/rtp receives media: Rtp/Counter for the extended
-- counters of lib.rs, Rtp/Jitter for session/jitter_buffer.rs, Rtp/Extensions for extensions.rs and
-- its use in rtp_packet.rs, Rtp/Packet for the data of a packet, Rtp/Session for session/mod.rs,
-- which keeps a jitter buffer for each source and reports on them. media/session tells the
-- protocols on a socket apart (Session/PacketKind for transport/packet_kind.rs). media/ice finds
-- the addresses by which two agents reach each other: Ice/Types for the data of lib.rs, Ice/Pairs
-- for candidate pairs and priorities, Ice/Agent for the state and the candidates, Ice/Nomination
-- for `poll_nomination`, Ice/States for `poll_state`, Ice/Poll for `poll` and `timeout`,
-- Ice/Response and Ice/Receive for `receive_stun` and what it calls, Ice/Stun for stun.rs. The
-- messages of ICE are those of media/stun-types: Stun/Header for header.rs, Stun/Builder for
-- builder.rs, Stun/Message for parse.rs, Stun/Attribute and its children for attributes, each
-- attribute a record of its decoding and encoding; Stun/Wire says which bytes the builder makes and
-- proves what the parser reads from them. Stun/Endpoint is the endpoint of media/stun/src/lib.rs
-- that sends a request until it is answered. Common holds what all share; Tests runs the models on
-- concrete inputs.
--
-- How the code is read. State is a record, and a method that changes it is a function to the new
-- record. A panic, a failed assertion or an index that is not there is the answer `none`, or a
-- constructor `panics`. Numbers are natural numbers; where the source works on a fixed width, the
-- wrap-around is written out, and where it does not, the file says why the width is enough. A map
-- of the standard library is a list of keys and values (Common/Maps); a slot map is given by its
-- values in the order of its iteration, and its `insert` is a parameter, since its crate is not
-- part of the repository. So are the writing methods of the crate bytes (Common/BufMut), the
-- reading methods of the crate byteorder (Common/Bytes), the keyed digests of STUN, the arithmetic
-- of floats in Rtp/Session, the hash of a foundation, and random numbers. Sorting by priority is an
-- insertion sort, which fixes the order of equal pairs. An asynchronous wait is a function of the
-- list of events that end it.
--
-- Bounds and fuel. The loops over bytes in Rtp/Extensions, over the backlog in Sip/Dialog, over
-- pairs in `prune_pairs`, over events in `receive_final` and over the bytes of attributes in Stun
-- run on fuel for the length of what they take from, one more where a last round is needed; each
-- round takes at least one element, and the theorems on these loops give that fuel themselves.
--
-- Not modelled: sockets, name resolution, logging and printing for debugging; the parsers made of
-- combinators of nom; SDP, authentication, media sessions and INVITE sessions. Ice/Stun keeps of a
-- message the class, the transaction and the attributes that the builder is given, and of an
-- integrity attribute the key; its bytes are those of Stun.
pub mod Common
pub mod Rtp
pub mod Ice
pub mod Session
pub mod Sip
pub mod Stun
pub mod Tests
