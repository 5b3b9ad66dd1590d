-- ===== src/Bin2Ascii.antt =====
-- include/query/bin2ascii.h: bytes as hexadecimal digits and in base 64. A byte is a number below
-- 256.
pub mod Hex
pub mod Base64
