-- ===== src/Tests/Dodash.antt =====
-- The theorem about `dodash` of compiler/lex/nfa.c at the class [a-cx], at the end of a line.
