-- ===== src/Bootstrap/Http.antt =====
-- The HTTP API (bootstrap/http).
pub mod Schemas
pub mod Requests
pub mod Responses
pub mod Errors
pub mod App
pub mod ClaimResponses
pub mod ClaimRoutes
