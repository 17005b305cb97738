-- ===== src/InteractiveCli.antt =====
-- interop/adapters/inbound/interactive_cli: the history of invocations and the prompts for the params
-- of a node.
pub mod History
pub mod Newest
pub mod Prompts
pub mod Paths
