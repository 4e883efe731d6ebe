-- ===== src/Tests.antt =====
-- Runs of the models on small inputs.
mod Samples
mod Sorting
mod Memory
mod Stores
mod Commands
mod Agents
mod Events
mod Findings
mod Collections
mod Checks
