-- ===== src/System.antt =====
-- compiler/lib/syslib.c: the routines that the two compilers share.
pub mod Pairs
pub mod Escape
pub mod Sort
pub mod Numbers
pub mod Input
