-- ===== src/Mdb.antt =====
-- include/quekka/Quekka_mdb.hpp, the tables in memory.
pub mod Tests
pub mod Key
pub mod Columns
pub mod Table
pub mod Database
