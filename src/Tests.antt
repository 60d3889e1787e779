-- ===== src/Tests.antt =====
-- Tests by evaluation, and each theorem at an input that meets its hypotheses.
mod Trees
mod Tables
mod Symbols
mod Tokens
mod Lists
mod Names
mod Output
mod Programs
mod Storage
