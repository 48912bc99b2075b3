-- ===== src/User.antt =====
-- services/user/src: the profiles of the users and their roles.
pub mod Service
pub mod Routes
pub mod Branches
pub mod Reachable
pub mod Roles
pub mod Profiles
mod Tests
