-- ===== src/Configuration.antt =====
-- libpgvictoria/configuration.c: reading the values and the lines of a configuration file.
mod Tests
pub mod Numbers
pub mod Units
pub mod Levels
pub mod Lines
