-- ===== src/Block.antt =====
-- Blocks and block segments: include/frenzykv/persistent/block.h and persistent/block.cc.
pub mod Segment
pub mod SegmentBuilder
pub mod Items
pub mod SegmentRoundTrip
pub mod Builder
pub mod Layout
pub mod Steps
pub mod Building
pub mod Growing
pub mod Run
pub mod Content
pub mod RoundTrip
pub mod Carrying
pub mod Whole
pub mod Reader
pub mod Termination
pub mod Integrity
pub mod Decompress
pub mod PrefixTests
