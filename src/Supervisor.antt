-- ===== src/Supervisor.antt =====
-- src/main.rs: `run`, from the first start of the services to the end of the event loop.
pub mod State
pub mod Signals
pub mod Events
pub mod SetUp
pub mod Startup
pub mod InSync
pub mod Invariant
pub mod Shutdown
pub mod Clients
pub mod Restarts
pub mod Policies
pub mod Stages
pub mod Masks
