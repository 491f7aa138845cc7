-- ===== src/Utils.antt =====
-- app/utils: pages of a list, and the folders of uploads.
pub mod Pagination
pub mod Folders
pub mod Slugs
mod Tests
