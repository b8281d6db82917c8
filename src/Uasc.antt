-- ===== src/Uasc.antt =====
-- internal/opcua/uasc.go: the framing of OPC UA Secure Conversation. The children hold the headers
-- and the sequence numbers, each with its laws.
pub mod Header
pub mod HeaderLaws
pub mod SecurityHeaderLaws
pub mod Sequence
pub mod SequenceLaws
