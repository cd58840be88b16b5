-- ===== src/Machine.antt =====
-- What the C programs take from the language and its library: 32-bit integers, buffers, strings.
pub mod Word
pub mod Decimal
pub mod Buffer
pub mod Cmd
