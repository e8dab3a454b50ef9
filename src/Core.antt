-- ===== src/Core.antt =====
-- crates/korg-core: the vocabularies, the label registry, and the graph of work that the repositories
-- keep.
pub mod Vocab
pub mod Error
pub mod Registry
pub mod Graph
pub mod Programs
pub mod Relate
mod Tests
