-- ===== src/Handler.antt =====
-- fabric-shim/src/handler.rs: the link to the peer, the connection and its transactions.
pub mod Link
pub mod Connection
