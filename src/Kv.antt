-- ===== src/Kv.antt =====
-- The key-value entries: include/frenzykv/db/kv_entry.h and db/kv_entry.cc.
pub mod Key
pub mod Value
pub mod Entry
pub mod Wire
pub mod RoundTrip
pub mod Scan
pub mod Termination
pub mod KeyOrder
