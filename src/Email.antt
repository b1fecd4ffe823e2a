-- ===== src/Email.antt =====
-- internal/email: addresses, trust, tags and replies, and the poller.
pub mod Address
pub mod Trust
pub mod RepoTag
pub mod Reply
pub mod Headers
pub mod Chain
pub mod Search
pub mod Listing
pub mod Poller
