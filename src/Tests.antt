-- ===== src/Tests.antt =====
-- The theorems at concrete inputs, and runs of the definitions.
mod Packets
mod Tables
mod Amounts
mod Kills
mod Events
mod Reapers
mod Minfrees
mod Watchdogs
mod Controls
mod Clients
mod Loops
mod Reports
mod Startups
mod Batches
mod Files
