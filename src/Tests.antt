-- ===== src/Tests.antt =====
-- Runs of the model at concrete inputs, and the theorems at inputs that meet their hypotheses.
mod Data
mod Parsing
mod Storing
mod Interleaving
mod Serving
mod Threading
mod Starting
mod Pooling
mod Destroying
