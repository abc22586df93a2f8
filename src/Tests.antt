-- ===== src/Tests.antt =====
-- Runs of the program's functions, and the theorems at concrete inputs.
mod Demo
mod Kernel
mod Image
mod Contention
mod Data
mod Filling
mod Locks
mod Rows
mod Handler
mod Texts
mod Proxy
mod Requests
mod Workers
mod Parsing
mod Payments
mod Extracts
mod Clients
mod Start
mod Rounds
mod Routing
mod Tickets
mod Counting
mod Visits
