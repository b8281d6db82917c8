-- ===== src/Lib.antt =====
-- A model of the OPC UA stack of the adapter: the binary encoding, the connection protocol, the
-- framing of secure conversation, the secure channels, the sessions and the subscriptions, all of
-- internal/opcua, and of three parts of its OPC DA side, internal/opcda.
--
-- The parts and how they meet. A connection starts with Hello and Acknowledge (uacp.go), whose
-- bodies, like every other one, go through the encoder and the decoder of binary.go. Chunks carry
-- the headers of uasc.go; a chunk's sequence number passes a SequenceValidator, its channel and its
-- token pass the ChannelRegistry of channel.go, and its body is joined by a ChunkAccumulator.
-- The values inside a message are the structures of nodeid.go and the times of datetime.go. A request
-- is made in a session, which the SessionRegistry of session.go finds by its token and checks against
-- the channel; a Publish drives the SubscriptionService of subscription.go, whose values a DA group
-- drains from the pendingUpdates of internal/opcda/subscribe.go. When a session ends, by whatever
-- route, the registry reports it, and its subscriptions are released.
--
-- Files:
--   Prelude, Prelude/*     names that all files share: Boolean tests and lists over the native
--                          natural numbers, integers, little-endian words
--   Errors                 CodecError by its status code, and results that may fail
--   Binary, Binary/*       internal/opcua/binary.go: Limits is BinaryLimits, Encoder and Decoder have
--                          a function per method (WriteUInt32 is write_uint32), with the sticky error
--                          of the encoder and the offset of the decoder in their state. Emits and
--                          Reads say in one record what a method writes and reads, with the rules
--                          for sequences of methods; Writes, Scalars and Texts give them for each
--                          method; Steady and Safety follow the decoder over any input; Body is a
--                          message body that is decoded as a whole
--   NodeId, NodeId/*       internal/opcua/nodeid.go: NodeID and ExpandedNodeID
--   Structures, Structures/* internal/opcua/nodeid.go: QualifiedName, LocalizedText,
--                          ExtensionObject, DiagnosticInfo
--   Headers, Headers/*     internal/opcua/nodeid.go: RequestHeader and ResponseHeader; Table is the
--                          string table of the latter
--   DateTime, DateTime/Laws internal/opcua/datetime.go
--   Uacp, Uacp/*           internal/opcua/uacp.go: Header, Hello (Hello, Acknowledge, Error,
--                          NegotiateAcknowledge, truncateUTF8), Chunks (ChunkAccumulator)
--   Uasc, Uasc/*           internal/opcua/uasc.go: Header (the three headers), Sequence
--                          (SequenceValidator, RequireSupportedSecurityMode)
--   Channel, Channel/*     internal/opcua/channel.go: Token (ChannelSecurityToken, ChannelLimits,
--                          SecureChannel), Ids (allocateChannelID), Registry (ChannelRegistry, where
--                          Accept is accept and ExpireStale is expire_stale), Channels (the map);
--                          Invariant and Reachable are runs of calls, Lookups what is found then, Stale
--                          what ExpireStale removes
--   Session, Session/*     internal/opcua/session.go: Limits (SessionLimits, checkClientNonce), State
--                          (Session, bindToChannel), Table (the map), Identity
--                          (requireAnonymousIdentity), Registry (SessionRegistry, where Create is
--                          create and lookupLocked is lookup_session); Conserved, Bounded, Runs and
--                          Soundness are runs of calls, Expiry, Access and Activation what single
--                          calls do
--   Subscription, Subscription/* internal/opcua/subscription.go: Limits (SubscriptionLimits), State
--                          (uaSubscription, monitoredItem), Queue (buildMessage and the
--                          retransmission queue), Items (collect, flushHeld, reportInvalidation),
--                          Service and Publishing (SubscriptionService); QueueLaws, Order and
--                          Queued are about the queue, Built, Cycles and Sent about single cycles,
--                          Given about the item that a drained value is given to, Arrivals, Grown,
--                          Growth, Life and LifeLaws about the life of a subscription, Owners about
--                          the calls of sessions, Serving about the choice of a subscription,
--                          Lifetimes about expiry; Deadband is internal/opcua/deadband.go
--   Listener               internal/opcua/listener.go: the hook that ends subscriptions with their session
--   Da, Da/*               internal/opcda: Pending (subscribe.go, pendingUpdates), Coalesce (what it is
--                          meant to drain), Backoff (reconnect.go, reconnectDelay), Arrays (array.go,
--                          ElementCount and MatchesItsShape)
--   RoundTrips             the structures through encoder and decoder
--   Examples, Examples/*   theorems at concrete inputs
--
-- Conventions. A byte, an unsigned integer and a count is a natural number, with its wrap-around
-- written out where the code relies on it; a signed integer is an integer that is written as its
-- two's complement word. A Go string and a byte slice are lists of bytes, a null one is `none`. A
-- value with a Has flag is an Option. An error is its status code; the text of its message is not
-- modelled. A float is its bit pattern, with NaN made quiet as the code does. A time of
-- channel.go, session.go and subscription.go is a count of nanoseconds. A map is the list of its
-- values or of its entries; where a loop goes through a map, it takes the order of that list. A
-- float64 of milliseconds is the int64 that the code makes of it, and the product with a
-- millisecond wraps. An int that is a length or a limit is a natural number; where the size of an
-- int decides, as it does for the int that buildMessage makes of a UInt32, it is an argument, 32
-- bits for a windows/386 build and 64 for a windows/amd64 one, and a panic is the answer `none`.
-- The bytes of the random source are arguments. A limit of channel.go that is negative is refused
-- just as 0 is, and is modelled as 0. A method that changes its receiver answers the receiver as
-- it is afterwards.
--
-- Bounds and fuel. allocateChannelID loops until an identifier is free: the model searches with
-- two more steps than there are channels, and answers `none` if that is not enough, which never
-- happens below 2 ^ 32 - 1 channels; allocateID of the subscriptions is the same search. The
-- recursion of DiagnosticInfo is bounded by the ceiling of ten that the code itself has. All
-- other functions are structural.
--
-- Not modelled: the text of errors and the String methods, Variant and the address space, the
-- services of internal/opcua/service.go and the listener but for its hook, the messages of
-- sessions and subscriptions, the creation of monitored items and the DA group behind a
-- subscription, whose drained values are an argument, the rest of the OPC DA side, the HTTP, gRPC
-- and MCP front ends, configuration and start-up, and everything that is input and output only.
-- The hook of OnSessionEnd is what the registry's calls answer as ended. Go's standard library is
-- not modelled but for the byte order of encoding/binary and the instants of time.
pub mod Binary
pub mod Channel
pub mod Da
pub mod DateTime
pub mod Errors
pub mod Examples
pub mod Headers
pub mod Listener
pub mod NodeId
pub mod Prelude
pub mod RoundTrips
pub mod Session
pub mod Structures
pub mod Subscription
pub mod Uacp
pub mod Uasc
