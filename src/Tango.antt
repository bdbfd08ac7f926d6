-- ===== src/Tango.antt =====
-- helpers/tango.py: the two-party equal-output mix.
pub mod Plan
pub mod Outputs
pub mod Turns
pub mod Round
