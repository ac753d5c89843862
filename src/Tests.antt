-- ===== src/Tests.antt =====
-- The theorems at concrete inputs, and runs of the model.
mod Maps
mod Growth
mod Caching
mod Opening
mod Fixed
mod Scheduling
mod Paging
mod Directories
