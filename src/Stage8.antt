-- ===== src/Stage8.antt =====
-- The single-file module of naive/naivefs-8/naivefs.c (naive/naivefs-9-10/naivefs.c is the same
-- text).
pub mod State
pub mod Bitmap
pub mod File
pub mod Namespace
pub mod Super
pub mod Tests
