-- ===== src/Pl.antt =====
-- The program loader, libtactyk/tactyk_pl.c with include/tactyk_pl.h.
pub mod Struct
pub mod Memory
pub mod Walk
