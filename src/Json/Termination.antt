-- ===== src/Json/Termination.antt =====
-- The parser comes to an end on every text, with the fuel that `parse` gives it.
pub mod Lexer
pub mod Parser
