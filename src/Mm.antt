-- ===== src/Mm.antt =====
-- src/mm: the physical page allocator and the kernel heap.
pub mod Pmm
pub mod Heap
