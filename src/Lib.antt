-- ===== src/Lib.antt =====
-- A verification library for ifascada, a SCADA system of edge agents and a central server
-- (crates/).
--
-- An edge agent reads devices through drivers. For each tag a tag executor polls or listens to a
-- driver, passes what it reads through the tag's pipeline (parser, validators, scaling), updates
-- the tag and publishes a domain event. A publisher sends events to an MQTT broker, or buffers
-- them in SQLite while the broker is away. The automation engine sees the same events; a trigger
-- that fires runs an action, which accumulates values in a session or prints a receipt, and a
-- manager sends the receipts to the printer. Commands come back over MQTT. The central server
-- keeps the last status of agents and tags by their heartbeats and values, stores values, events
-- and reports in PostgreSQL, and sends configurations to the agents.
--
-- The modules and the code they model:
-- - Text: the functions of Rust's `str` that the code uses, with UTF-8 in Text/Utf8. Prelude:
--   lists, tests and automation.
-- - Float, Json: the interfaces of `f64` arithmetic and of serde_json. A theorem that takes them
--   holds for any arithmetic and any printing. `Json.Value` is `serde_json::Value`.
-- - Domain: crates/domain/src, a child for each file: TagId, Status, Quality, UpdateMode, Config
--   (automation.rs and the types of tag/pipeline.rs), Connection (driver/connection_state.rs),
--   Device, Event, Tag (tag/aggregate.rs).
-- - Settings: the records of crates/infrastructure/src/config.rs.
-- - Pipeline: crates/application/src/tag/tag_pipeline.rs (`new`, `process`), and its children
--   Parsers, Scale, Validators and Factory for crates/infrastructure/src/pipeline.rs.
-- - Executor: crates/application/src/tag/tag_executor.rs. `connect`, `disconnect`, `reconnect`,
--   `handle_timeout`, `handle_read_error` and `publish_value` change the executor; Executor/Loop
--   has the three loops, whose turns `run` puts in sequence, and `execute`.
-- - Drivers: Modbus for crates/infrastructure/src/drivers/modbus.rs and Rs232 for rs232.rs
--   beside it. Modbus/Shared has the registry of shared serial ports, and Shared/Runs the steps
--   of many drivers on it.
-- - Devices: Actor for crates/application/src/device/device_actor.rs, which polls the tags of a
--   device in one go, and Manager for manager.rs beside it.
-- - Automation: crates/application/src/automation/engine.rs. `handle_event` steps the triggers
--   of a tag and gives the actions that fire.
-- - Printer: Batch and Receipt for batch_manager.rs and builder.rs of
--   crates/application/src/printer, Printing for the actions of
--   crates/application/src/automation/executor.rs, Manager for
--   crates/application/src/printer/manager.rs.
-- - Messaging: Client for the connection flag and the subscriptions of mqtt_client.rs, Publisher
--   for buffered_publisher.rs (crates/infrastructure/src/messaging) and
--   database/sqlite_buffer.rs, Commands for
--   crates/application/src/messaging/command_listener.rs.
-- - Reload: crates/edge-agent/src/config_manager.rs, over the repository traits of
--   crates/domain/src as an interface. Reload/Database puts the repository of devices in its
--   place.
-- - Server: crates/central-server/src/state.rs; Load has its loading from the database.
--   Telemetry, Reports, Messages and Flusher are the handling of messages in
--   crates/central-server/src/main.rs, with the buffer it drains; ConfigService is
--   services/config_service.rs and Api is api.rs beside it.
-- - Repositories: Tags for database/tag_repository/sea_orm_tag_repository.rs, Postgres for
--   postgres_tag_repository.rs beside it and Devices for database/device_repository.rs
--   (crates/infrastructure/src), with the rows of database/entities. AgentConfigs is
--   repositories/db_config_repository.rs there, which makes an agent's configuration of the
--   rows. Configured is config_repository.rs beside it.
-- - Examples: the theorems at concrete inputs.
--
-- How the code is modelled:
-- - What a function asks of the outside (the clock, a driver, the publisher, the queue, the
--   broker, SQLite) is an argument: a record `World` of answers, one for each turn, job, action
--   or call. What it does to the outside is listed in a trace or in the state. So a theorem
--   about a run holds for every behaviour of the outside, and hypotheses on it are named, like
--   `Fresh` and `Selects` for the rows of SQLite.
-- - Tasks that run side by side are lists of steps. The flusher and the callers of `publish`
--   share a buffer: a run is any interleaving of publications, wake-ups and single rows sent.
-- - Loops that run for ever take a list: of signals for the executor, of jobs for the printer
--   manager, of connection attempts for its connect loop. Only `Text.trim_start_matches` uses
--   fuel: one more than the number of characters, which `trim_start_matches-none` shows to be
--   enough.
-- - A transaction of PostgreSQL carries its writes and a flag for an aborted transaction: after
--   a statement that fails, every other statement fails, and a commit keeps nothing. Which
--   statement fails is an argument.
-- - A connection to a shared port is two steps of its driver, the look for a context and the
--   opening of the port, with the steps of other drivers in between. The contexts that ports
--   hold are named by numbers, and a weak reference is alive while a driver holds its context.
-- - The bytes of a serial port are read by a real UTF-8 decoder; a read takes at most the 1024
--   bytes of its buffer.
-- - A panic is an outcome: of a timer whose period is 0, of a received configuration, and of
--   `to_offset` at a time that the time crate cannot hold (`fits`), which gives up the packet or
--   the report; the tasks that it ends are not modelled further.
-- - The history of a tag is asked of the database: the model has the query that is sent and the
--   answer that is made of the rows.
-- - A table of a repository is a list of rows in the order of insertion.
-- - Clock readings are numbers of milliseconds. A difference that the code casts to `u64` wraps
--   around (`Domain.Tag.elapsed_ms`); the `u32` counter of reconnections wraps at 2 ^ 32.
-- - A `HashMap` is an association list keyed by text. Its order of iteration is not used by a
--   theorem; theorems speak of `lookup`.
-- - Unicode's tables (`is_alphanumeric`, white space), compiled regular expressions, the parsing
--   of numbers and the printing of times are parameters.
--
-- Not modelled: the simulators and the driver factory; the publishers other than the buffered
-- one; the connections to printers; the SQL schema and its migration; the start-up of the
-- programs; the listings and the event stream of the HTTP interface; the web dashboard. Logging
-- is left out everywhere.
mod Prelude
pub mod Float
pub mod Json
pub mod Text
pub mod Domain
pub mod Pipeline
pub mod Executor
pub mod Settings
pub mod Automation
pub mod Printer
pub mod Messaging
pub mod Server
pub mod Devices
pub mod Drivers
pub mod Reload
pub mod Repositories
mod Examples
