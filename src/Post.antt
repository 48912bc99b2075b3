-- ===== src/Post.antt =====
-- services/post/src: posts with slugs, tags, drafts and visibility.
pub mod Slug
pub mod Store
pub mod Service
pub mod UniqueSlug
pub mod Invariant
pub mod RepeatedTags
pub mod Creation
pub mod Events
pub mod Tagging
pub mod ReadBack
pub mod Listing
pub mod Access
pub mod Updates
pub mod Routes
pub mod Untouched
pub mod Others
pub mod Ownership
pub mod Upkeep
pub mod Publication
mod Tests
