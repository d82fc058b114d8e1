-- ===== src/Cmd.antt =====
-- The package cmd: the configuration, the connection to the database and the life of the process.
pub mod Config
pub mod Postgres
pub mod Collectors
pub mod Run
