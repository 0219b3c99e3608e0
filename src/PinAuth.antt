-- ===== src/PinAuth.antt =====
-- crates/service/src/pin_auth.rs: hashing and checking the parent's PIN, and the lockout that
-- slows down guessing. `Lockout` is the lockout's state machine, `Policy` the checks on a stored
-- hash; the Argon2 and PHC libraries are parameters there.
pub mod Lockout
pub mod Policy
