-- ===== src/Tests.antt =====
-- Runs of the model on concrete inputs, and the theorems at such inputs.
mod Books
mod Pools
mod Logs
mod Matching
mod Prices
mod Pipelines
mod Formats
mod Disks
mod Codecs
mod Streams
