-- ===== src/Repositories.antt =====
-- The repositories of internal/infrastructure/adapters/repositories that keep a table or a cache of
-- their own: the mappers between entities and rows, the plants, the status of each plant, the
-- examples and the analytical events.
pub mod Models
pub mod Plants
pub mod Analytical
pub mod Examples
