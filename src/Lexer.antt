-- ===== src/Lexer.antt =====
-- `SQLexer` (Squirrel3/squirrel/sqlexer.h, sqlexer.cpp): from characters to tokens.
-- The reader `_readf` gives bytes, so that the error of `Next` for a larger character does not
-- occur; behind the last byte it gives zeros, and a zero byte is the end of the text.
-- `Error` does not return: it is the error of a result. `scstrtod` is not called: `fvalue` is the
-- text that it would read.
pub mod Token
pub mod Cursor
pub mod Number
pub mod Literal
pub mod Scan
pub mod Reads
pub mod Parts
pub mod Progress
pub mod Decimal
pub mod Tests
