-- ===== src/Examples.antt =====
-- The theorems at concrete inputs, and runs of the definitions.
mod Numbers
mod Ranges
mod Store
mod Reorgs
mod Policies
mod Chain
mod Fetches
mod Indexers
mod Configs
mod Calls
mod Runs
mod Histories
mod Names
mod Times
