-- ===== src/Tests.antt =====
-- Runs of the model on concrete inputs, and the theorems applied at such inputs.
mod Fractions
mod Samples
mod Classifying
mod Tracking
mod Reconciling
mod Reporting
mod Operating
mod Probing
mod Sweeping
mod Metering
mod Judging
mod Starting
mod Wiring
mod Answering
mod Linking
mod Meshing
mod Serving
mod Launching
