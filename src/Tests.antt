-- ===== src/Tests.antt =====
-- Concrete instances of the theorems, whose hypotheses hold there, by the parts of the program.
mod Messages
mod Writing
mod Reading
mod Alerting
mod Requests
mod Composed
mod Serving
mod Starting
mod Analytics
mod Routing
