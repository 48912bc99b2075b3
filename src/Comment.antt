-- ===== src/Comment.antt =====
-- services/comment/src: comments and replies on posts.
pub mod Service
pub mod Routes
pub mod Threads
pub mod Reachable
pub mod Branches
pub mod Listing
mod Tests
