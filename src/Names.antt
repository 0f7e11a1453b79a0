-- ===== src/Names.antt =====
-- The texts that the handlers derive from what users send: download names, archive formats,
-- platforms. A text is a list of code points; `String` only where a whole text is kept or compared.
pub mod Filename
pub mod Format
pub mod Platforms
