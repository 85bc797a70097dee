-- ===== src/Examples.antt =====
-- The theorems at concrete inputs, and small runs of the code.
mod Domain
mod Pipeline
mod Executor
mod Sample
mod Automation
mod Printer
mod Messaging
mod Server
mod Devices
mod Drivers
mod Ingest
mod Commands
mod Repositories
mod Reload
