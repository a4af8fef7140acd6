-- ===== src/Analysis.antt =====
-- code/pkg/analysis: the classifier and the hysteresis tracker.
pub mod Config
pub mod Scan
pub mod Tallies
pub mod Hypotheses
pub mod Classifier
pub mod Evidence
pub mod Counts
pub mod Tallied
pub mod Justified
pub mod Tracker
