-- ===== src/Tests.antt =====
-- Concrete runs of the models, and the theorems at concrete inputs.
mod Data
mod Contacts
mod Commands
mod Pipelines
mod Mail
mod Replies
mod Searches
mod Guidance
mod Grants
mod Enabling
mod Signing
mod Records
mod Tables
mod Contracts
mod Processes
mod Sending
mod Sessions
mod Installs
mod Readings
mod Answers
mod Listings
mod Identities
