-- ===== src/Captcha.antt =====
-- services/captcha/src: challenges that a visitor answers once.
pub mod Store
pub mod Routes
pub mod Glyphs
pub mod Padding
pub mod Answers
pub mod Life
pub mod CleanUp
mod Tests
