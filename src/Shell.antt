-- ===== src/Shell.antt =====
-- The shell of hw1: its tokenizer, its commands, and what it does with a line.
pub mod Tokenizer
pub mod Commands
pub mod Redirection
