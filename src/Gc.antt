-- ===== src/Gc.antt =====
-- stdlib/gc.c and stdlib/gc.h: the garbage collector of compiled programs.
pub mod Object
pub mod PtrMap
pub mod Marking
pub mod Pool
pub mod Collector
pub mod Allocator
