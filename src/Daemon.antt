-- ===== src/Daemon.antt =====
-- internal/daemon: recipes, planning, the pipeline and the mail handler.
pub mod Command
pub mod Call
pub mod Sanitize
pub mod Pipeline
pub mod Handler
pub mod Signature
pub mod Loading
pub mod Persist
pub mod Mission
pub mod Payload
pub mod Runner
