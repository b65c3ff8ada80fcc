-- ===== src/Intern.antt =====
-- The table of interned strings: `SQStringTable` of Squirrel3/squirrel/sqstate.cpp and `_hashstr` of
-- sqstring.h.
pub mod Strings
pub mod Lookup
pub mod Rehash
pub mod Laws
pub mod Remove
mod Tests
