-- ===== src/StrHash.antt =====
-- lib/strhash.c: the string hash table that the extensions share.
pub mod Hash
pub mod Sizes
pub mod Chain
pub mod Table
mod Tests
