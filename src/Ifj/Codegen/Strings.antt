-- ===== src/Ifj/Codegen/Strings.antt =====
-- 2/IFJ/codegen.c: the escapes of string literals. The buffer is the text written to it so far and
-- its size; `index` is the length of that text. A write outside of the buffer is a crash, and so
-- is an escape that `snprintf` would cut, after which `index` would be wrong.
use vut_projects.Base.{
  ℕ, ◌+◌, ◌*◌, ◌/◌, ◌%◌, Bool, ◌||◌, ◌==◌, List, [], ◌∷◌, ◌++◌, ltb, leb, if◌then◌else◌, length,
  Text,
}
use vut_projects.Ifj.Run.{Run, ok, crash, ◌>>=◌}
pub mod Unescape

-- `"\\%03d"` of a byte
abbrev pub escaped : ℕ → Text
escaped c = b'\\' ∷ (b'0' + c / 100) ∷ (b'0' + c / 10 % 10) ∷ (b'0' + c % 10) ∷ []

abbrev pub needs_escape : ℕ → Bool
needs_escape c = leb c 32 || ((c == 35) || ((c == 92) || leb 127 c))

abbrev pub print_escape : (buffer_size : ℕ) → Text → ℕ → Run Text
print_escape buffer_size written c =
    if ltb (length written + 4) buffer_size then ok (written ++ escaped c) else crash

abbrev pub put_char : (buffer_size : ℕ) → Text → ℕ → Run Text
put_char buffer_size written c =
    if ltb (length written) buffer_size then ok (written ++ c ∷ []) else crash

-- The loop over the bytes of the input.
unfoldable pub escape_loop : (buffer_size : ℕ) → (written input : Text) → Run Text
escape_loop buffer_size written [] = ok written
escape_loop buffer_size written (c ∷ input) =
    (if needs_escape c then print_escape buffer_size written c else put_char buffer_size written c)
    >>= λ longer. escape_loop buffer_size longer input

unfoldable pub escape_ifj24_string : (input : Text) → Run Text
unfolding escape_loop
escape_ifj24_string input = do
  let buffer_size = length input * 4 + 1
  written ← escape_loop buffer_size [] input
  if ltb (length written) buffer_size then ok written else crash
