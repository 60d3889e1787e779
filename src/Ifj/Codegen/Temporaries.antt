-- ===== src/Ifj/Codegen/Temporaries.antt =====
-- 2/IFJ/codegen.c: the names of the temporary variables of a function.
use vut_projects.Base.{
  ℕ, sym, ap, ◌∙◌, ◌+◌, ◌^◌, ◌≤◌, ◌<◌, ◌≡◌, ◌≢◌, refl, inl, inr, false, ◌&&◌, ◌==◌, Option, none,
  some, List, [], ◌∷◌, ◌++◌, arith, if◌then◌else◌, length, length-append, Text, Bool-cases,
  take_all, text_eq, eq_of_text_eq,
}
use vut_projects.Ifj.Run.{ok}
use vut_projects.Ifj.Utils.{decimal}
use vut_projects.Ifj.Codegen.{
  Generator, has_name, add_temp_var, unique_name, generate_unique_var_name,
  get_temp_var_name_for_node, split_last,
}
use vut_projects.Ifj.Codegen.Numbers.{
  decimal-injective, has_char-decimal, length-decimal, split_last-append,
}

-- The names were made from numbers below `counter`, of bases that leave room for the number.
abbrev pub NumberedBelow : (counter : ℕ) → List Text → Type 0
NumberedBelow counter [] = Unit
NumberedBelow counter (name ∷ names) =
    (base : Text) × (number : ℕ) × (name ≡ unique_name base number)
    × (length base ≤ 50)
    × (number < counter)
    × NumberedBelow counter names

unique_name-whole :
    (base : Text) (n : ℕ)
    → length base ≤ 50
    → n < 2 ^ 31
    → unique_name base n ≡ (b'%' ∷ base) ++ b'_' ∷ decimal n
unique_name-whole base n h h' =
    take_all 63 ((b'%' ∷ base) ++ b'_' ∷ decimal n)
      (omega (arith, length-append base (b'_' ∷ decimal n), length-decimal n h'))

abbrev behind : Option (Text × Text) → Text
behind none = []
behind (some parts) = parts.1

-- Whatever the bases, the number can be read from the name.
number-injective :
    (base base' : Text) (n m : ℕ)
    → length base ≤ 50
    → length base' ≤ 50
    → n < 2 ^ 31
    → m < 2 ^ 31
    → unique_name base n ≡ unique_name base' m
    → n ≡ m
number-injective base base' n m h h' k k' e =
    let free = λ (i : ℕ). has_char-decimal b'_' i refl in
    let same : some (b'%' ∷ base, decimal n) ≡ some (b'%' ∷ base', decimal m) =
      sym (split_last-append b'_' (b'%' ∷ base) (decimal n) (free n))
      ∙ ap (split_last b'_')
          (sym (unique_name-whole base n h k) ∙ e ∙ unique_name-whole base' m h' k')
      ∙ split_last-append b'_' (b'%' ∷ base') (decimal m) (free m) in
    decimal-injective n m (ap behind same)

name_new :
    (base : Text) (counter number : ℕ) (names : List Text)
    → NumberedBelow counter names
    → length base ≤ 50
    → counter ≤ number
    → number < 2 ^ 31
    → has_name names (unique_name base number) ≡ false
name_new base counter number [] h short le lt = refl
name_new base counter number (name ∷ names) (base', m, e, short', below, h) short le lt =
    elim (Bool-cases (text_eq name (unique_name base number))) [
      | inl same ↦
          let equal =
            number-injective base' base m number short' short (omega arith) lt
              (sym e ∙ eq_of_text_eq _ _ same) in
          absurd (omega arith)
      | inr other ↦ rw other (name_new base counter number names h short le lt)
    ]

NumberedBelow-suc :
    (counter : ℕ) (names : List Text)
    → NumberedBelow counter names
    → NumberedBelow (counter + 1) names
NumberedBelow-suc counter [] h = h
NumberedBelow-suc counter (name ∷ names) (base, m, e, short, below, h) =
    (base, m, e, short, omega arith, NumberedBelow-suc counter names h)

-- A new temporary variable has a name that no temporary variable of the function has, so it is
-- added to those, and it is found for its node and key, while what is found for all other nodes and
-- keys stays as it was.
pub generate-NumberedBelow :
    (base : Text) (node : ℕ) (key : Text) (g : Generator) (node' : ℕ) (key' : Text)
    → NumberedBelow g.unique_var_counter g.temp_vars
    → length base ≤ 50
    → g.unique_var_counter < 2 ^ 31
    → node ≢ 0
    → (name : Text) × (g' : Generator) × (generate_unique_var_name base node (some key) g
        ≡ (name, g'))
      × (has_name g.temp_vars name ≡ false)
      × (g'.temp_vars ≡ name ∷ g.temp_vars)
      × NumberedBelow g'.unique_var_counter g'.temp_vars
      × (get_temp_var_name_for_node node' key' g' ≡ (
          if (node == node') && text_eq key key'
          then ok name
          else get_temp_var_name_for_node node' key' g))
unfolding generate_unique_var_name get_temp_var_name_for_node add_temp_var
generate-NumberedBelow base node key g node' key' h short fits node_set =
    let new =
      name_new base g.unique_var_counter g.unique_var_counter g.temp_vars h short (omega arith)
        fits in
    let set : (node == 0) ≡ false = ground arith in
    (
      unique_name base g.unique_var_counter,
      record g {
        unique_var_counter = g.unique_var_counter + 1;
        temp_vars = unique_name base g.unique_var_counter ∷ g.temp_vars;
        temp_var_map =
            record { node = node; key = key; var_name = unique_name base g.unique_var_counter }
            ∷ g.temp_var_map;
      },
      rw (new, set) refl,
      new,
      refl,
      (
        base,
        g.unique_var_counter,
        refl,
        short,
        omega arith,
        NumberedBelow-suc g.unique_var_counter g.temp_vars h,
      ),
      refl,
    )
