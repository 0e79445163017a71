-- ===== src/Examples.antt =====
-- Concrete systems and runs of the program on them.
pub mod Machine
pub mod Runs
pub mod Handlers
mod Requests
mod Turns
mod CommandLine
mod StatusFile
mod Published
mod LateRestart
mod Stages
mod Children
mod Reloads
mod Restarts
