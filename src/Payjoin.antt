-- ===== src/Payjoin.antt =====
-- The Silent Payments PayJoin (helpers/payjoin_sp.py).
pub mod Inputs
pub mod Wire
pub mod Plan
pub mod Witnesses
