-- ===== src/Ifj/Codegen/Variables.antt =====
-- 2/IFJ/codegen.c: the names of the declared variables of a function.
use vut_projects.Base.{
  ℕ, sym, ap, ◌∙◌, ◌≤◌, ◌<◌, ◌≡◌, refl, false, ◌==◌, Option, none, some, [], ◌∷◌, ◌++◌, leb, arith,
  length, Text, map, append_assoc,
}
use mathlib.Core.List.{append_cancel_right}
use vut_projects.Ifj.Run.{Run, ok}
use vut_projects.Ifj.Utils.{decimal, has_char, construct_variable_name}
use vut_projects.Ifj.Codegen.{dash, remove_last_prefix, split_last}
use vut_projects.Ifj.Codegen.Numbers.{decimal-injective, has_char-decimal, split_last-append}

dashes-append : (a b : Text) → map dash (a ++ b) ≡ map dash a ++ map dash b
dashes-append [] b = refl
dashes-append (c ∷ a) b = ap (λ t. dash c ∷ t) (dashes-append a b)

dashes_same : (text : Text) → has_char b'.' text ≡ false → map dash text ≡ text
dashes_same [] h = refl
dashes_same (c ∷ text) h =
    let plain : (c == b'.') ≡ false = ground arith in
    rw (plain, dashes_same text (ground arith)) refl

-- The last two parts of a name are joined, and the dot in front of them is a dash.
remove_last_prefix-parts :
    (x d f : Text)
    → has_char b'.' x ≡ false
    → has_char b'.' d ≡ false
    → has_char b'.' f ≡ false
    → 1 ≤ length f
    → length (x ++ b'.' ∷ (d ++ b'.' ∷ f)) < 1024
    → remove_last_prefix (some (x ++ b'.' ∷ (d ++ b'.' ∷ f))) ≡ ok (some ((x ++ b'-' ∷ d) ++ f))
unfolding remove_last_prefix
remove_last_prefix-parts x d [] hx hd hf one fits = absurd (omega arith)
remove_last_prefix-parts x d (c ∷ f) hx hd hf one fits =
    let small : leb 1024 (length (x ++ b'.' ∷ (d ++ b'.' ∷ (c ∷ f)))) ≡ false = ground arith in
    let parts : split_last b'.' (x ++ b'.' ∷ (d ++ b'.' ∷ (c ∷ f))) ≡ some (x ++ b'.' ∷ d, c ∷ f) =
      rw (sym (append_assoc x (b'.' ∷ d) (b'.' ∷ (c ∷ f))))
        (split_last-append b'.' (x ++ b'.' ∷ d) (c ∷ f) hf) in
    rw
      (
        small,
        parts,
        dashes-append (x ++ b'.' ∷ d) (c ∷ f),
        dashes-append x (b'.' ∷ d),
        dashes_same x hx,
        dashes_same d hd,
        dashes_same (c ∷ f) hf,
      )
      refl

construct_renamed :
    (x f : Text) (n : ℕ)
    → has_char b'.' x ≡ false
    → has_char b'.' f ≡ false
    → 1 ≤ length f
    → length (construct_variable_name n x f) < 1024
    → remove_last_prefix (some (construct_variable_name n x f))
      ≡ ok (some ((x ++ b'-' ∷ decimal n) ++ f))
unfolding construct_variable_name
construct_renamed x f n hx hf one fits =
    remove_last_prefix-parts x (decimal n) f hx (has_char-decimal b'.' n refl) hf one fits

-- The name of a variable in a `Run`, and the two sides of its dash.
abbrev printed : Run (Option Text) → Text
printed (ok (some name)) = name
printed _ = []

abbrev sides : Option (Text × Text) → Text × Text
sides none = ([], [])
sides (some parts) = parts

-- In a function the generator gives different names to variables that differ in their name or in
-- the number of their scope, as long as these have no dots and fit the buffer.
pub variables-injective :
    (x y f : Text) (n m : ℕ)
    → has_char b'.' x ≡ false
    → has_char b'.' y ≡ false
    → has_char b'.' f ≡ false
    → 1 ≤ length f
    → length (construct_variable_name n x f) < 1024
    → length (construct_variable_name m y f) < 1024
    → remove_last_prefix (some (construct_variable_name n x f))
      ≡ remove_last_prefix (some (construct_variable_name m y f))
    → (x ≡ y) × (n ≡ m)
variables-injective x y f n m hx hy hf one fits fits' e =
    let same : (x ++ b'-' ∷ decimal n) ++ f ≡ (y ++ b'-' ∷ decimal m) ++ f = ap printed (
      sym (construct_renamed x f n hx hf one fits) ∙ e ∙ construct_renamed y f m hy hf one fits') in
    let front : x ++ b'-' ∷ decimal n ≡ y ++ b'-' ∷ decimal m =
      append_cancel_right (x ++ b'-' ∷ decimal n) (y ++ b'-' ∷ decimal m) f same in
    let parts : (x, decimal n) ≡ (y, decimal m) =
      sym (ap sides (split_last-append b'-' x (decimal n) (has_char-decimal b'-' n refl)))
      ∙ ap (λ t. sides (split_last b'-' t)) front
      ∙ ap sides (split_last-append b'-' y (decimal m) (has_char-decimal b'-' m refl)) in
    (ap (λ p. p.0) parts, decimal-injective n m (ap (λ p. p.1) parts))
