-- ===== src/Dblock.antt =====
-- libtactyk/tactyk_dblock.c
pub mod Block
pub mod Hash
pub mod Persist
pub mod Table
pub mod Number
pub mod Text
pub mod Pool
pub mod Stratify
pub mod Tokens
pub mod Lines
pub mod Links
pub mod Interpolate
pub mod Export
pub mod Container
