-- ===== src/Mcp.antt =====
-- internal/mcp: how the tools print.
pub mod Table
pub mod Messages
pub mod Recipients
pub mod Params
pub mod Format
pub mod Reading
pub mod Attachments
pub mod Replying
pub mod Moving
