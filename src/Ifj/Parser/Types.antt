-- ===== src/Ifj/Parser/Types.antt =====
-- 2/IFJ/parser.c: the types of data, how they are written, and which values a variable takes.
use vut_projects.Base.{Bool, true, false, not, ◌&&◌, ◌||◌, if◌then◌else◌}
use vut_projects.Ifj.Run.{err_syntax}
use vut_projects.Ifj.Scanner.{
  token_i32, token_f64, token_u8, token_void, token_assign, token_question,
}
use vut_projects.Ifj.Ast.{
  DataType, null, int, float, void, u8, unknown, int_nullable, float_nullable, u8_nullable,
  same_type,
}
use vut_projects.Ifj.Parser.{Parse, pure, error_exit, ◌>>◌, same_token, when_token, get_token}

unfoldable pub is_nullable : DataType → Bool
is_nullable t = same_type t int_nullable || same_type t float_nullable || same_type t u8_nullable

unfoldable pub detach_nullable : DataType → DataType
detach_nullable t =
    if same_type t int_nullable
    then int
    else if same_type t float_nullable
    then float
    else if same_type t u8_nullable
    then u8
    else t

unfoldable pub can_assign_type : (expected_type actual_type : DataType) → Bool
unfolding is_nullable detach_nullable
can_assign_type expected_type actual_type =
    if same_type expected_type actual_type
    then true
    else if same_type expected_type float && same_type actual_type int
    then true
    else if is_nullable expected_type
        && not (is_nullable actual_type)
        && same_type (detach_nullable expected_type) actual_type
    then true
    else if not (is_nullable expected_type) && is_nullable actual_type
    then false
    else if is_nullable expected_type && same_type actual_type null
    then true
    else false

-- Reads the next token and returns the type.
abbrev pub take_type : DataType → Parse DataType
take_type type = get_token >> pure type

-- The types behind a question mark.
unfoldable pub parse_nullable_type : Parse DataType
parse_nullable_type =
    get_token
    >> when_token (same_token token_i32) (take_type int_nullable) (
        when_token (same_token token_f64) (take_type float_nullable)
          (when_token (same_token token_u8) (take_type u8_nullable) (error_exit err_syntax)))

unfoldable pub parse_type : Parse DataType
unfolding parse_nullable_type
parse_type = when_token (same_token token_i32) (take_type int) (
    when_token (same_token token_f64) (take_type float) (
      when_token (same_token token_u8) (take_type u8) (
        when_token (same_token token_void) (take_type void) (
          when_token (same_token token_assign) (take_type unknown)
            (when_token (same_token token_question) parse_nullable_type (error_exit err_syntax))))))

unfoldable pub parse_return_type : Parse DataType
unfolding parse_nullable_type
parse_return_type = when_token (same_token token_i32) (take_type int) (
    when_token (same_token token_f64) (take_type float) (
      when_token (same_token token_u8) (take_type u8) (
        when_token (same_token token_void) (take_type void)
          (when_token (same_token token_question) parse_nullable_type (error_exit err_syntax)))))
