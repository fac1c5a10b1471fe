-- ===== src/Text.antt =====
-- Text on its way through the server.
pub mod Utf8
