-- ===== src/Proxy.antt =====
-- crates/a2g-mcp-proxy/src: the proxy between an agent and a tool server.
pub mod Types
pub mod Governance
pub mod Dispatch
pub mod Governed
pub mod Guarded
