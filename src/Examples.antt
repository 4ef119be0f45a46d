-- ===== src/Examples.antt =====
-- The theorems at concrete inputs: the program's own names, weights and settings.
mod Breaking
mod Balancing
mod Limiting
mod Routing
mod Sorting
mod Hashing
mod Plugging
mod Serving
mod Forwarding
mod Applying
mod Watching
mod Administering
mod Measuring
mod Converting
mod Sending
mod Filing
