-- ===== src/Tests.antt =====
-- Runs of the models, and the theorems at concrete inputs.
mod Attributes
mod Lifecycle
mod Cachefs
mod Shell
mod Http
mod Gap
mod Malloc
mod Removal
mod Commands
mod Startup
mod WorkQueue
