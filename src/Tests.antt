-- ===== src/Tests.antt =====
-- Runs of the model on small inputs, and the theorems at concrete inputs.
mod Records
mod Manifests
mod Tables
mod Merges
mod Wire
mod Stores
mod Trees
mod Compacting
mod Serving
