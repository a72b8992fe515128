-- ===== src/Examples.antt =====
-- Small states, runs and cohorts on which the theorems are used.
mod Dispatch
mod Events
mod Scores
mod Rescores
mod Generations
mod Tenancies
mod Erasures
mod Throttles
mod Backfills
mod Orders
mod Lifecycles
