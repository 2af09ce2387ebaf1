-- ===== src/Server.antt =====
-- main.go, with the settings and the database that it starts from: internal/infrastructure/conf and
-- Shutdown of internal/infrastructure/container/container.go.
pub mod Cors
pub mod Settings
pub mod Database
pub mod Health
pub mod Start
