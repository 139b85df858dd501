-- ===== src/Tests.antt =====
-- Runs of the model on small inputs, and the theorems at concrete values.
mod Values
mod Runs
mod Examples
mod Exchanges
mod Caches
mod Codecs
mod Replays
mod Streams
