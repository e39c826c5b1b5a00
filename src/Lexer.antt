-- ===== src/Lexer.antt =====
-- src/core/lexer/lexer.h and src/core/lexer/lexer.c: the scanner that turns a source text into tokens.
pub mod Token
pub mod Keywords
pub mod Cursor
pub mod Scanner
pub mod Stream
pub mod Tests
