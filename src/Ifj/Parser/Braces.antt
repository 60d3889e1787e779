-- ===== src/Ifj/Parser/Braces.antt =====
-- 2/IFJ/parser.c: the loop of the first pass over the braces of a body, at the end of the file.
use vut_projects.Base.{ℕ, zero, suc, ◌≡◌, refl, [], codes}
use vut_projects.Ifj.Run.{Run, ok}
use vut_projects.Ifj.Scanner.{token_eof}
use vut_projects.Ifj.Scanner.Next.{get_next_token}
use vut_projects.Ifj.Scanner.Position.{at}
use vut_projects.Ifj.Parser.{Parser, get_token, out_of_fuel, ◌>>=◌, when_token}
use vut_projects.Ifj.Parser.Program.{braces_loop}

next_at_end :
    (line column : ℕ)
    → get_next_token (at [] line column)
      ≡ ok (
        record { type = token_eof; lexeme = codes "EOF"; line = line; column = column },
        at [] line column,
      )
unfolding get_next_token
next_at_end line column = refl

-- The loop that looks for the end of a body does not end when the file ends first: with an open
-- brace and nothing left to read, it takes up any amount of fuel.
pub unclosed-Endless :
    (fuel open_braces line column : ℕ) (p : Parser)
    → p.scanner ≡ at [] line column
    → braces_loop fuel (suc open_braces) p ≡ Run.out_of_fuel
unfolding braces_loop get_token out_of_fuel ◌>>=◌ when_token
unclosed-Endless zero open_braces line column p e = refl
unclosed-Endless (suc fuel) open_braces line column p e =
    rw (e, next_at_end line column) (unclosed-Endless fuel open_braces line column _ refl)
