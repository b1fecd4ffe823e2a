-- ===== src/Permissions.antt =====
-- internal/permissions/permissions.go: the rules that enabling adds to .claude/settings.json, the
-- record of those it added, and their removal.
pub mod Json
pub mod Allow
pub mod Transact
pub mod Run
