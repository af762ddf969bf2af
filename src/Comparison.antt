-- ===== src/Comparison.antt =====
-- annotation_quality/comparison.py: the word comparison of two transcripts.
pub mod Types
pub mod Align
pub mod BadQuality
pub mod Unicode
pub mod Ascii
pub mod Compare
pub mod Tokens
