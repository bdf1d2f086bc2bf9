-- ===== src/Examples.antt =====
-- Concrete clusters on which the theorems are tried: three servers, a sampler that takes the first
-- ones, and short histories.
pub mod Clusters
pub mod Servers
mod Runs
mod Lookups
mod Restarts
mod Steps
mod Chunks
mod Clients
mod Threads
mod Healing
mod Appends
