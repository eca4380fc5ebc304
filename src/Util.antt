-- ===== src/Util.antt =====
-- libtactyk/tactyk_util.c
pub mod Pow2
pub mod Ints
pub mod Random
