-- ===== src/Parser.antt =====
-- The parser hook of src/ggsql_parser.cpp: which statements are taken from DuckDB, and their text.
pub mod Scanner
pub mod Tokens
pub mod Loops
pub mod Scanned
pub mod Total
pub mod Stripped
mod Tests
