-- ===== src/Channel.antt =====
-- internal/opcua/channel.go: secure channels, their tokens, and the registry that holds them. The
-- children are the tokens, the registry, and the laws of each.
pub mod Token
pub mod TokenLaws
pub mod Ids
pub mod Registry
pub mod Channels
pub mod Invariant
pub mod Reachable
pub mod Lookups
pub mod Stale
