-- ===== src/Auth.antt =====
-- services/auth/src: credentials, sessions and captcha tokens.
pub mod Service
pub mod Requests
pub mod Invariant
pub mod Constraints
pub mod Captcha
pub mod SingleUse
pub mod Steps
pub mod Rotation
pub mod Sessions
pub mod RoundTrips
pub mod Taken
pub mod Passwords
pub mod Bootstrap
pub mod Routes
pub mod Gate
pub mod Subscribers
mod Tests
