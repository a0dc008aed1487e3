-- ===== src/Bootstrap.antt =====
-- The services' entry: authentication and the HTTP API (services/src/engrammesh/bootstrap).
pub mod Auth
pub mod Http
mod Examples
