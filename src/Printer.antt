-- ===== src/Printer.antt =====
-- crates/application/src/printer and automation/executor.rs: batches of printed items, the receipts
-- they become, the actions that make them, and the manager that sends them to the printer.
pub mod Batch
pub mod Session
pub mod Receipt
pub mod Printing
pub mod Manager
