-- ===== src/Regex.antt =====
-- The regular expressions of the library (Squirrel3/sqstdlib/sqstdrex.cpp): the compiler, from a
-- pattern to an array of nodes that are linked by their indices, and the classes of its matcher.
-- A pattern is a C string: behind its last character `cur` is 0. A `SQChar` is a byte, and
-- where the source orders two of them, their signed values are compared.
pub mod Node
pub mod Elements
pub mod Compile
pub mod Grows
pub mod Pending
pub mod Singles
pub mod Links
pub mod Classes
pub mod Groups
pub mod Repetition
pub mod Built
pub mod Match
pub mod Meaning
pub mod Matching
pub mod Tests
