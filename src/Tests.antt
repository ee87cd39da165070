-- ===== src/Tests.antt =====
-- Concrete inputs: each theorem that has hypotheses at an input that meets them, and runs of the
-- definitions.
mod Sets
mod Lexer
mod Parser
mod MinDfa
mod System
mod Hash
mod Dodash
