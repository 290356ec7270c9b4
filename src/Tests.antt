-- ===== src/Tests.antt =====
-- Runs of the model on concrete inputs, and each theorem at an input that meets its hypotheses.
mod Table
mod Interface
mod Service
mod Specification
mod Server
mod Checker
mod Node
mod Threads
mod Lidar
mod Coro
mod Concurrent
mod Metrics
mod Deployment
mod Main
mod Emulator
mod Restored
mod NodeTableTest
