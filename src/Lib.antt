-- ===== src/Lib.antt =====
-- Models of student projects in this repository, and theorems about them: the compiler of 2/IFJ
-- (its scanner, its symbol table, its parser and its generator of code), and the linked list, the
-- search trees and the hash table of 2/IAL.
--
-- The parts. The compiler's scanner turns the input into tokens for the parser, which asks for one
-- at a time. The parser builds the syntax tree in two passes over the file, keeps the symbols of
-- functions and variables in the symbol table, starts it with the name `_` and the built-in
-- functions, and has it checked at the end. The generator walks the tree of each function twice:
-- first it collects the variables, which it declares, then it prints the instructions. The search
-- tree exists twice, recursive and iterative, with the same operations; the hash table and the
-- linked list are parts of their own.
--
-- The files.
--   Base: numbers, lists, C strings as lists of bytes, and integers.
--   Chained: an array of linked chains, as both hash tables have one. A table is read as a list of
--     items and as a function of keys, and an operation on a chain is one on these.
--   Ifj/Run: 2/IFJ/error.h and error.c. A result is `ok`, `exit` with the code that `error_exit` is
--     given, `crash` for a null pointer followed or a write outside a buffer, or `out_of_fuel`.
--   Ifj/Scanner: 2/IFJ/scanner.c, scanner.h and tokens.h. The state is the record Scanner: the rest
--     of the file, the current character, line and column. Scanner/Scan has the words and numbers,
--     Scanner/Next the strings, operators and get_next_token; the other files prove.
--   Ifj/Symtable: 2/IFJ/symtable.c and symtable.h, with the table of built-in functions from
--     2/IFJ/parser.c. The state is the record SymTable, an array of chains with its size and count;
--     Symtable/Compile has the start and the checks at the end, Symtable/Valid states when a table
--     is well-formed.
--   Ifj/Ast: 2/IFJ/ast.c and ast.h, the nodes of the tree, as values with an address each. A
--     pointer in a node is a node or nothing. Ifj/Utils: the functions on strings of 2/IFJ/utils.c.
--     Ifj/Storage: its storage of pointers, the record PointerStorage; Storage/Held reads it as the
--     list of the pointers held. The parser does not use it: there a block is fresh, and never
--     freed.
--   Ifj/Parser: 2/IFJ/parser.c and parser.h. The state is the record Parser, its global variables
--     and the scanner; a function of the source is a step from a state to a result with a state.
--     Parser/Scopes, Types, Operations, Calls, Expressions, Statements, Blocks, Returns, ScopeCheck
--     and Program have the functions of these names. A function that calls another one in a circle
--     takes it as an argument. Parser/Logic has rules for places in the file and frames of the
--     state, and Parser/Ends applies them to every function up to the definition of a function.
--   Ifj/Codegen: 2/IFJ/codegen.c and codegen.h. The state is the record Generator, with the names
--     of variables, the numbers of labels and the lines printed. Codegen/Collect is the first pass
--     over a function, Emit and Statements the second, Program the functions and the program, and
--     Strings the escapes of string literals. Numbers, Temporaries and Variables are about names;
--     Steps has the rules by which Passes and SecondPass say what the second pass leaves as it is.
--   Ial/Tree: 2/IAL/2/btree-rec.c. Ial/TreeIter: the search, insertion and deletion of
--     2/IAL/2/btree-iter.c. Ial/TreeWalk: its traversals and its disposal. The stacks that these
--     call are not in the repository; Ial/Stack states them as an interface with laws.
--   Ial/HashTable: 2/IAL/2/hashtable.c, with the hash over signed characters.
--   Ial/DoubleList: 2/IAL/1/c206.c, on a heap from addresses to elements; DoubleList/Links states
--     when a record describes a list of cells, DoubleList/Active has the operations at the active
--     element.
--   Tests: evaluations, and the theorems at concrete inputs.
--
-- The functions have the names of the source. A loop that is named in the source by its function
-- only is called after it (`search_loop`, `read_loop`). A function that returns through pointers
-- returns a tuple.
--
-- Fuel. The loops of the scanner run on as much fuel as there are characters left, and one more; a
-- turn consumes a character. The parser's blocks, expressions and loops run on as much fuel as
-- there is left of the file, and one more, since each consumes a token; the loop of the first pass
-- over the braces of a body is the one that may need more. The loops of the traversals run on a
-- number computed from the tree. That it is enough is part of the theorems, which say that a result
-- is returned. The disposal of the linked list runs on its length and one more. All other loops are
-- by recursion on the list or the tree they walk.
--
-- Bounds. The hash of the symbol table wraps at 2 ^ 64. The sizes and counts of the tables, and
-- lines and columns, are taken to fit an `int`, and the load of the symbol table to be exact as a
-- `float`, which holds below 2 ^ 24 symbols. Memory runs out only where a parameter says so: in the
-- tree, the stacks and the hash table of 2/IAL/2; the compiler ends when an allocation fails. What
-- a fresh block holds is a parameter of the parser.
--
-- Not modelled: messages, the opening of files, what `%.13a` prints of a number (a parameter),
-- functions of 2/IFJ/codegen.c that nothing calls, 2/IAL/2/btree-exa.c (an empty body), the singly
-- linked list and the conversion of expressions in 2/IAL/1, and the projects in 1/IZP, 1/IOS and
-- 2/IPK.
pub mod Base
pub mod Chained
pub mod Ial
pub mod Ifj
mod Tests
