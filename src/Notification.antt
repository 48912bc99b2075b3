-- ===== src/Notification.antt =====
-- services/notification/src: what a user is told of.
pub mod Service
pub mod Isolation
mod Tests
