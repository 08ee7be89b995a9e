-- ===== src/Vega.antt =====
-- user/sdk/vega, the shell language.
pub mod Fntab
