-- ===== src/Merkle.antt =====
-- src/merkle: the Merkle tree over the MACs of the stored items.
pub mod Config
pub mod ArrayList
pub mod Hash
pub mod Tree
pub mod Toy
mod Tests
