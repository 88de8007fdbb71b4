-- ===== src/Store.antt =====
-- memcached/items.c, memcached/memcached.c and memcached/proto_text.c: how an item is stored, enters the
-- Merkle tree, and is verified when it is read.
pub mod Items
pub mod Command
pub mod Core
pub mod Link
pub mod Secured
pub mod Set
pub mod Get
pub mod Hit
pub mod Process
pub mod Delta
pub mod Dispatch
mod Tests
