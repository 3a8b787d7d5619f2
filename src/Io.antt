-- ===== src/Io.antt =====
-- The files of io/ and include/frenzykv/io/, over the kernel's.
pub mod Buffer
pub mod InMem
pub mod Kernel
pub mod Writable
pub mod Readable
