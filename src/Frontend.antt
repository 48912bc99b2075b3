-- ===== src/Frontend.antt =====
-- services/frontend/src: its texts, its session and requests, and the logic of its pages.
pub mod Escape
pub mod Links
pub mod Session
pub mod Fields
pub mod Editor
pub mod Excerpt
pub mod Client
pub mod Threads
pub mod Toasts
pub mod Buttons
pub mod Posting
pub mod SignUp
mod Tests
mod PageTests
