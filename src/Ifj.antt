-- ===== src/Ifj.antt =====
-- 2/IFJ: a compiler from IFJ24 to IFJcode24.
pub mod Run
pub mod Ast
pub mod Utils
pub mod Storage
pub mod Scanner
pub mod Symtable
pub mod Parser
pub mod Codegen
