-- ===== src/Img.antt =====
-- crates/korg-img: the ids of images, and what an upload becomes.
pub mod Id
pub mod Upload
mod Tests
