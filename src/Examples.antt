-- ===== src/Examples.antt =====
-- Small instances of what the theorems assume, and the theorems at concrete inputs.
mod Toy
mod Pipelines
mod Pools
mod Snapshots
mod Storages
mod Watches
mod Buckets
mod Folders
mod Clouds
mod Sealed
