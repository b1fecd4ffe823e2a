-- ===== src/Mcp/Reading/Blind.antt =====
-- What an agent sees of mail whose sender it may not read (internal/mcp/tools.go).
use beadle.Text.{Text}
