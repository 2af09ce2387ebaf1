-- ===== src/Rest.antt =====
-- internal/infrastructure/adapters/rest: the rate limiter and the handlers. A handler is a function
-- of what the request brings and of what the repositories answer.
pub mod RateLimit
pub mod TestIntake
pub mod Response
pub mod Events
pub mod Statuses
pub mod Examples
pub mod Router
