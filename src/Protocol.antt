-- ===== src/Protocol.antt =====
-- The crate crates/chassis-protocol: the wire types of the kernel and its plugins.
pub mod RpcError
pub mod JsonRpc
pub mod Framing
pub mod Envelope
pub mod Lifecycle
