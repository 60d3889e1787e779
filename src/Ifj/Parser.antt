-- ===== src/Ifj/Parser.antt =====
-- 2/IFJ/parser.c, 2/IFJ/parser.h: the state of the recursive descent, and the actions that its
-- functions are made of. The global variables of the file are the state. `memory` is what the
-- allocated blocks hold at first, and `next_block` the address of the next one.
use vut_projects.Base.{
  ℕ, zero, suc, ◌+◌, Bool, true, false, ◌==◌, Option, some, none, List, [], ◌∷◌, if◌then◌else◌,
  Text,
}
use vut_projects.Ifj.Run
use vut_projects.Ifj.Run.{Run, ok, exit, crash, err_syntax}
use vut_projects.Ifj.Ast.{Garbage}
use vut_projects.Ifj.Symtable.{Symbol, SymTable, symtable_search, symtable_insert}
use vut_projects.Ifj.Scanner.{
  Scanner, Token, TokenType, unread, token_const, token_var, token_if, token_else, token_while,
  token_return, token_fn, token_pub, token_void, token_null, token_i32, token_f64, token_u8,
  token_import, token_identifier, token_int_literal, token_float_literal, token_string_literal,
  token_plus, token_minus, token_multiply, token_divide, token_assign, token_equal, token_not_equal,
  token_less, token_greater, token_less_equal, token_greater_equal, token_left_paren,
  token_right_paren, token_left_brace, token_right_brace, token_comma, token_semicolon, token_colon,
  token_left_bracket, token_right_bracket, token_pipe, token_dot, token_question, token_eof,
  token_unknown,
}
use vut_projects.Ifj.Scanner.Next.{get_next_token}
pub mod Logic
pub mod Scopes
pub mod Types
pub mod Operations
pub mod Calls
pub mod Expressions
pub mod Statements
pub mod Blocks
pub mod Returns
pub mod ScopeCheck
pub mod Program
pub mod Ends
pub mod Frames
pub mod Typed
pub mod Paths
pub mod Braces

pub record Parser : Type 0 where
  pub scanner : Scanner
  pub current_token : Token
  pub symtable : SymTable
  -- `scope_stack[0 .. scope_stack_top]`, the top first
  pub scope_stack : List ℕ
  pub scope_counter : ℕ
  pub next_block : ℕ
  pub memory : ℕ → Garbage

abbrev pub max_scope_depth : ℕ
max_scope_depth = 100

abbrev pub Parse : Type 0 → Type 0
Parse A = Parser → Run (A × Parser)

module _ {A : Type 0} where
  unfoldable pub pure : A → Parse A
  pure a p = ok (a, p)

  unfoldable pub error_exit : ℕ → Parse A
  error_exit code p = exit code

  unfoldable pub null_pointer : Parse A
  null_pointer p = crash

  unfoldable pub out_of_fuel : Parse A
  out_of_fuel p = Run.out_of_fuel

infixl 1 ◌>>=◌ ◌>>◌
unfoldable pub ◌>>=◌ : {A B : Type 0} → Parse A → (A → Parse B) → Parse B
m >>= f = λ p. Run.◌>>=◌ (m p) (λ (a, p'). f a p')

abbrev pub ◌>>◌ : {A B : Type 0} → Parse A → Parse B → Parse B
m >> k = m >>= λ _. k

-- The numbers of the tokens in 2/IFJ/tokens.h, by which C compares them.
abbrev pub token_code : TokenType → ℕ
token_code token_const = 0
token_code token_var = 1
token_code token_if = 2
token_code token_else = 3
token_code token_while = 4
token_code token_return = 5
token_code token_fn = 6
token_code token_pub = 7
token_code token_void = 8
token_code token_null = 9
token_code token_i32 = 10
token_code token_f64 = 11
token_code token_u8 = 12
token_code token_import = 13
token_code token_identifier = 14
token_code token_int_literal = 15
token_code token_float_literal = 16
token_code token_string_literal = 17
token_code token_plus = 18
token_code token_minus = 19
token_code token_multiply = 20
token_code token_divide = 21
token_code token_assign = 22
token_code token_equal = 23
token_code token_not_equal = 24
token_code token_less = 25
token_code token_greater = 26
token_code token_less_equal = 27
token_code token_greater_equal = 28
token_code token_left_paren = 29
token_code token_right_paren = 30
token_code token_left_brace = 31
token_code token_right_brace = 32
token_code token_comma = 33
token_code token_semicolon = 34
token_code token_colon = 35
token_code token_left_bracket = 36
token_code token_right_bracket = 37
token_code token_pipe = 38
token_code token_dot = 39
token_code token_question = 40
token_code token_eof = 41
token_code token_unknown = 42

abbrev pub same_token : TokenType → TokenType → Bool
same_token a b = token_code a == token_code b

-- `current_token.lexeme`
unfoldable pub lexeme : Parse Text
lexeme p = ok (p.current_token.lexeme, p)

-- A choice by the type of the current token.
unfoldable pub when_token : {A : Type 0} → (TokenType → Bool) → Parse A → Parse A → Parse A
when_token test m k p = if test p.current_token.type then m p else k p

-- What is left of the file, the current token included, but for the token of its end.
abbrev pub left : Scanner → Token → ℕ
left s token = unread s + (if same_token token_eof token.type then 0 else 1)

-- Fuel for a loop: one more than what is left.
unfoldable pub with_fuel : {A : Type 0} → (ℕ → Parse A) → Parse A
with_fuel m p = m (suc (left p.scanner p.current_token)) p

-- `current_token = get_next_token(scanner)`
unfoldable pub get_token : Parse (Unit {0})
get_token p =
    Run.◌>>=◌ (get_next_token p.scanner)
      (λ (token, scanner). ok (tt, record p { scanner = scanner; current_token = token }))

unfoldable pub expect_token : TokenType → Parse (Unit {0})
unfolding get_token
expect_token expected_type = when_token (same_token expected_type) get_token (error_exit err_syntax)

-- The address of a fresh block, and what it holds.
unfoldable pub safe_malloc : Parse (ℕ × Garbage)
safe_malloc p =
    ok ((p.next_block, p.memory p.next_block), record p { next_block = p.next_block + 1 })

unfoldable pub search : Text → Parse (Option Symbol)
search key p =
    Run.◌>>=◌ (symtable_search p.symtable (some key))
      (λ (symbol, symtable). ok (symbol, record p { symtable = symtable }))

-- The result of `symtable_insert` is not read here.
unfoldable pub insert : Text → Symbol → Parse (Unit {0})
insert key symbol p =
    Run.◌>>=◌ (symtable_insert p.symtable (some key) (some symbol))
      (λ (_, symtable). ok (tt, record p { symtable = symtable }))
