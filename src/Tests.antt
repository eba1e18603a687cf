-- ===== src/Tests.antt =====
-- The theorems at concrete inputs, and runs of the model.
mod Data
mod Messages
mod Caches
mod Routers
mod Toys
mod Adapters
mod Apis
mod Paths
mod Clis
mod Networks
mod Bridges
