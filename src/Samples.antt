-- ===== src/Samples.antt =====
-- Runs of the model on small inputs, and the theorems at inputs where their hypotheses hold.
mod Data
mod Runs
mod Witnesses
mod Documents
mod Calls
mod Turns
mod Starts
mod Schemas
mod Servers
