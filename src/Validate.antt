-- ===== src/Validate.antt =====
-- internal/api/validate: the checks of policy configurations at the API.
pub mod Names
pub mod Policy
pub mod Headers
pub mod Sections
pub mod Accepts
mod Tests
