-- ===== src/Binary.antt =====
-- internal/opcua/binary.go: the bounded encoder and decoder of UA Binary. The children hold the
-- limits, the encoder, the decoder, and the laws by which the codecs of larger values are proved.
pub mod Limits
pub mod Encoder
pub mod Decoder
pub mod Emits
pub mod Reads
pub mod Steady
pub mod Writes
pub mod Scalars
pub mod Texts
pub mod Safety
pub mod Optional
pub mod Body
