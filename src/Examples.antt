-- ===== src/Examples.antt =====
-- Runs of the models at concrete inputs, and the theorems at inputs that meet their hypotheses.
mod Store
mod Queueing
mod Failing
mod Limiting
mod Cycling
mod Hosting
mod Collecting
mod Operating
mod Serving
mod Keeping
