-- ===== src/Text.antt =====
-- Python's operations on texts that the modelled code uses, written out over the native texts.
pub mod Split
pub mod Strip
