-- ===== src/Emit.antt =====
-- The compiler, libtactyk/tactyk_emit.c with include/tactyk_emit.h.
pub mod Labels
pub mod Script
pub mod Machine
pub mod Operands
pub mod Operators
pub mod Composite
pub mod Interpreter
pub mod Compile
pub mod Layout
