-- ===== src/Shared.antt =====
-- services/shared/src: the code that every service imports.
pub mod Errors
pub mod Events
pub mod Requests
