-- ===== src/Tests.antt =====
-- Tests: the theorems at concrete inputs.
mod Sorting
mod Money
mod Relaying
mod Rules
mod Accounts
mod Bodies
mod Runs
mod Proxying
mod Vendors
