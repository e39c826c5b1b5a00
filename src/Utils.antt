-- ===== src/Utils.antt =====
-- src/utils/utils.c: the escapes of string literals.
pub mod Unescape
