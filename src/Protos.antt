-- ===== src/Protos.antt =====
-- fabric-shim-protos: the messages of the shim protocol.
pub mod MsgType
pub mod Messages
pub mod Codec
