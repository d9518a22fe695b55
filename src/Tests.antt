-- ===== src/Tests.antt =====
-- Runs of the code at concrete inputs, and the theorems applied there.
mod Parser
mod Source
mod Aggregate
mod Sink
mod Redis
mod Query
mod Routes
mod Config
mod Program
mod Util
mod Rabbit
mod Watcher
mod Restarts
mod Gateway
mod Lifecycle
