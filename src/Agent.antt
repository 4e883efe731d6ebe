-- ===== src/Agent.antt =====
-- The agent daemon: libs/agent, include/holonightd/agentd, apps/agentd.
pub mod EventCommand
pub mod State
pub mod Ancestry
pub mod Event
pub mod Registry
pub mod Bindings
pub mod Normalizer
pub mod Message
pub mod Bridge
pub mod Activation
pub mod Service
