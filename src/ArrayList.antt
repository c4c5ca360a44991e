-- ===== src/ArrayList.antt =====
-- source/ArrayList.c: a growing array of pointers in which NULL marks a free slot.
pub mod State
pub mod Edit
pub mod Resize
pub mod Query
pub mod Invariant
pub mod Loops
pub mod Removing
pub mod Packing
pub mod Resizing
pub mod Adding
pub mod Sifting
pub mod Sift
pub mod Lookups
pub mod Calls
pub mod Life
pub mod Guarded
pub mod Access
pub mod Sort
pub mod Locked
pub mod Tsafe
mod Tests
