-- ===== src/Uacp.antt =====
-- internal/opcua/uacp.go: the OPC UA Connection Protocol. The children hold the message header, the
-- Hello and Acknowledge bodies, the error message and the accumulator of chunks, each with its laws.
pub mod Header
pub mod HeaderLaws
pub mod Hello
pub mod HelloLaws
pub mod ReasonLaws
pub mod Chunks
