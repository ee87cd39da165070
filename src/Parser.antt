-- ===== src/Parser.antt =====
-- The parser generator of compiler/parser.
pub mod Grammar
pub mod First
pub mod Select
pub mod Follow
