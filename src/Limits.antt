-- ===== src/Limits.antt =====
-- The in-memory rate limiters of helpers/: a clock reading is a number of seconds, and the
-- readings within one call are one. A Python dict is a function from keys, with its default.
pub mod Window
pub mod Register
pub mod Invite
pub mod Scan
