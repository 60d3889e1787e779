-- ===== src/Ifj/Parser/Ends.antt =====
-- 2/IFJ/parser.c: that the functions of the parser end, and stay in any frame of its steps.
pub mod Calls
pub mod Expressions
pub mod Types
pub mod Assignments
pub mod Statements
pub mod Functions
