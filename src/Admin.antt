-- ===== src/Admin.antt =====
-- The admin pages (site/src/admin.tsx).
pub mod Validation
pub mod Editing
pub mod Checkout
pub mod Like
pub mod Listing
pub mod History
pub mod Showing
pub mod Routing
pub mod Redisplay
pub mod Locking
pub mod Paging
pub mod Search
pub mod Access
pub mod Atomic
pub mod Views
