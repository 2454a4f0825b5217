-- ===== src/Usage.antt =====
-- What a node does with the usage reports of its proxy: node_client/usage_verification.rs,
-- usage_db.rs and runtime/src/llm/mcp_tool_usage.rs.
pub mod Attestation
pub mod Verify
pub mod Store
pub mod Metrics
pub mod Ledger
pub mod Totals
pub mod Readback
