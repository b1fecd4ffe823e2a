-- ===== src/Pgp.antt =====
-- internal/pgp: the expiry of a signing key.
pub mod Expiry
