-- ===== src/Settings.antt =====
-- config.go, config_flag.go: the options, their limits, and how values are coerced and set.
pub mod Values
pub mod Slots
pub mod Options
pub mod Ranges
pub mod Setters
pub mod Frame
pub mod Valid
pub mod Tests
