-- ===== src/Tango/Round.antt =====
-- The rounds of the Tango, as views_api.py moves them.
pub mod Reserve
pub mod Handlers
pub mod Hold
pub mod Inversion
pub mod Exclusive
pub mod Planned
pub mod Freed
pub mod Final
