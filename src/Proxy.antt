-- ===== src/Proxy.antt =====
-- llm-proxy: what the proxy reads of a model's streamed answer, what it reports, and which
-- API keys it is given and sends on.
pub mod Sse
pub mod TeeBody
pub mod Usage
pub mod Json
pub mod Parser
pub mod Clock
pub mod ApiKeys
pub mod Handler
