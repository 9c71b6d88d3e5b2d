-- ===== src/Tests.antt =====
-- Concrete runs of the models: fixtures, and the theorems at them.
mod Fixtures
mod Handlers
mod Like
mod Commands
mod Logs
mod Parts
mod Reads
mod Searches
mod Service
mod Vectors
mod Histories
