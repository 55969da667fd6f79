-- ===== src/Tests.antt =====
-- Runs of the models on small inputs, and the theorems at such inputs.
mod Refreshes
mod Messages
mod Discovery
mod Files
mod Configurations
mod Caches
mod Searches
mod Replies
mod Listings
