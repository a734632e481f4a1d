-- ===== src/Clock.antt =====
-- The clocks: the affine map of the software clock, its interface, and the trim of the wired clock.
pub mod Affine
pub mod Software
pub mod WiredPi
