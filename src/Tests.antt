-- ===== src/Tests.antt =====
-- The theorems at concrete inputs, and runs of the definitions.
mod Data
mod Diffs
mod Stores
mod Archives
mod Others
mod Pipelines
