-- ===== src/Tests.antt =====
-- Runs of the definitions at fixed inputs, and instances of the theorems.
mod Recency
mod Filters
mod Areas
mod Groups
mod Headers
mod Delays
mod Admissions
mod Stores
mod Clusters
mod Requests
