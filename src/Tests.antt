-- ===== src/Tests.antt =====
-- The theorems at concrete inputs.
mod Data
mod Text
mod Handle
mod Transfers
mod Wrappers
mod Systems
mod Loops
mod Jsons
mod Protocols
mod Requests
