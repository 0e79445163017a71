-- ===== src/Service.antt =====
-- src/service.rs: a service, its configuration and state, and the processes that run it.
pub mod Types
pub mod Paths
pub mod Config
pub mod ConfigFile
pub mod Methods
pub mod StopReasons
pub mod Created
pub mod Display
pub mod Process
pub mod Child
