-- ===== src/Tests.antt =====
-- Examples: the theorems at concrete worlds of the database in memory.
mod Sessions
mod Requests
mod Journeys
mod Runs
mod Codes
mod Ledger
mod Uploaded
mod Processed
mod Accounts
