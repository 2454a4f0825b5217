-- ===== src/Tests.antt =====
-- Runs of the definitions on concrete data, and the theorems at concrete inputs.
mod Nodes
mod Releases
mod Peers
mod Streams
mod Clients
mod Reports
mod ApiKeys
mod Answers
mod Proxies
mod Calls
