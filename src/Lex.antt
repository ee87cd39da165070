-- ===== src/Lex.antt =====
-- compiler/lex: from the NFA of the regular expressions to the minimised DFA.
pub mod Nfa
pub mod Terp
pub mod Dfa
pub mod MinDfa
pub mod Dodash
