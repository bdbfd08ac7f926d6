-- ===== src/Payout.antt =====
-- Paying a Tango's change over Lightning.
pub mod Invoice
pub mod Plan
pub mod Threshold
pub mod Run
