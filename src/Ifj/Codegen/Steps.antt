-- ===== src/Ifj/Codegen/Steps.antt =====
-- 2/IFJ/codegen.c: what the actions of the second pass do to the state of the generator.
use vut_projects.Base.{
  ℕ, zero, suc, ◌+◌, ◌≡◌, ◌==◌, ◌&&◌, Bool, true, false, Option, none, some, List, [], ◌∷◌, ◌++◌,
  map, if◌then◌else◌, Text, codes,
}
use Prim.Native.String.{String}
use vut_projects.Ifj.Run.{
  ok, Halts, Halts-bind, Halts-weaken, Halts-ok, Halts-exit, Halts-if, err_internal,
}
use vut_projects.Ifj.Ast.{Pointer, nil, to, Node, Pointers, end, entry}
use vut_projects.Ifj.Codegen.{
  Generator, Operand, Line, remove_last_prefix, find_entry, get_temp_var_name_for_node,
  generate_unique_label, TempVarMapEntry, split_last, dash,
}
use vut_projects.Ifj.Codegen.Actions.{
  Gen, Step, pure, error_exit, null_pointer, ◌>>=◌, set, renamed, temporary, unique_label, emit,
  argument_at, pass_at, passes_loop, reverse_loop,
}

abbrev same_text : Text → Text → Bool
same_text [] [] = true
same_text (c ∷ text) (d ∷ text') = (c == d) && same_text text text'
same_text _ _ = false

-- The opcode of a line that declares a variable.
abbrev pub is_defvar : Text → Bool
is_defvar opcode = same_text opcode (codes "DEFVAR")

-- What the second pass does to the state. It prints lines that declare no variables.
pub record IsFrame (R : Generator → Generator → Type 0) : Type 0 where
  pub same : (g : Generator) → R g g
  pub then_ : (g h k : Generator) → R g h → R h k → R g k
  pub prints :
      (g : Generator) (line : Line)
      → is_defvar line.opcode ≡ false
      → R g (record g { output = line ∷ g.output })
  pub numbers : (g : Generator) → R g (record g { label_counter = g.label_counter + 1 })
  pub numbers_if : (g : Generator) → R g (record g { if_label_count = g.if_label_count + 1 })

-- The steps of the action are in the frame.
pub record Stays (R : Generator → Generator → Type 0) {A : Type 0} (m : Gen A) : Type 0 where
  pub from_state : (g : Generator) → Halts (m g) (λ (a, h). R g h)

find_entry-Halts :
    (entries : List TempVarMapEntry) (node : ℕ) (key : Text)
    → Halts (find_entry entries node key) (λ _. Unit)
find_entry-Halts [] node key = Halts-exit _ err_internal
find_entry-Halts (first ∷ entries) node key =
    Halts-if _ _ _ _ (Halts-ok _ _ tt) (find_entry-Halts entries node key)

remove-Halts : (name : Option Text) → Halts (remove_last_prefix name) (λ _. Unit)
unfolding remove_last_prefix
remove-Halts none = Halts-ok _ none tt
remove-Halts (some name) =
    Halts-if _ _ _ _ (Halts-exit _ err_internal) (by_parts (split_last b'.' name))
  where
    by_parts :
        (parts : Option (Text × Text))
        → Halts {A = Option Text}
            (elim parts [
              | none ↦ ok (some name)
              | some (prefix, []) ↦ ok (some name)
              | some (prefix, c ∷ rest) ↦ ok (some (map dash (prefix ++ c ∷ rest)))
            ])
            (λ _. Unit)
    by_parts none = Halts-ok _ _ tt
    by_parts (some (prefix, [])) = Halts-ok _ _ tt
    by_parts (some (prefix, c ∷ rest)) = Halts-ok _ _ tt

module _ {R : Generator → Generator → Type 0} (frame : IsFrame R) where
  module _ {A : Type 0} where
    pub Stays-pure : (a : A) → Stays R (pure a)
    unfolding Halts pure
    Stays-pure a = record { from_state = λ g. frame.same g }

    pub Stays-exit : Stays R (error_exit {A = A})
    unfolding Halts error_exit
    Stays-exit = record { from_state = λ g. tt }

    pub Stays-crash : Stays R (null_pointer {A = A})
    unfolding Halts null_pointer
    Stays-crash = record { from_state = λ g. tt }

    pub Stays-if : (b : Bool) {m k : Gen A} → Stays R m → Stays R k → Stays R (if b then m else k)
    Stays-if true h h' = h
    Stays-if false h h' = h'

  pub Stays-bind :
      {A B : Type 0} {m : Gen A} {f : A → Gen B}
      → Stays R m
      → ((a : A) → Stays R (f a))
      → Stays R (m >>= f)
  unfolding ◌>>=◌
  Stays-bind {m = m} {f = f} h k = record {
    from_state = λ g. Halts-bind _ _ (m g) _ (h.from_state g) (λ (a, g') here.
        Halts-weaken _ _ (f a g') ((k a).from_state g')
          (λ (b, last) there. frame.then_ g g' last here there));
  }

  pub Stays-set : (name : Option Text) → Stays R (set name)
  Stays-set none = Stays-crash
  Stays-set (some name) = Stays-pure name

  pub Stays-renamed : (name : Option Text) → Stays R (renamed name)
  unfolding renamed
  Stays-renamed name = record {
    from_state = λ g.
        Halts-bind _ _ _ _ (remove-Halts name) (λ var_name _. (Stays-set var_name).from_state g);
  }

  pub Stays-temporary : (node : ℕ) (key : String) → Stays R (temporary node key)
  unfolding temporary get_temp_var_name_for_node
  Stays-temporary node key = record {
    from_state = λ g.
        Halts-bind _ _ _ _ (find_entry-Halts g.temp_var_map node (codes key))
          (λ var_name _. Halts-ok _ _ (frame.same g));
  }

  pub Stays-label : Stays R unique_label
  unfolding unique_label generate_unique_label Halts
  Stays-label = record { from_state = λ g. frame.numbers g }

  pub Stays-emit :
      (opcode : String) (operands : List Operand)
      → is_defvar (codes opcode) ≡ false
      → Stays R (emit opcode operands)
  unfolding emit Halts
  Stays-emit opcode operands plain = record { from_state = λ g. frame.prints g _ plain }

  pub Stays-argument : (ps : Pointers) (i : ℕ) → Stays R (argument_at ps i)
  Stays-argument end i = Stays-crash
  Stays-argument (entry p ps) zero = Stays-pure p
  Stays-argument (entry p ps) (suc i) = Stays-argument ps i

  -- Each of the actions is in the frame.
  abbrev pub AllStay : List Step → Type 0
  AllStay [] = Unit
  AllStay (m ∷ ms) = Stays R m × AllStay ms

  pub Stays-pass : (ms : List Step) (i : ℕ) → AllStay ms → Stays R (pass_at ms i)
  Stays-pass [] i h = Stays-crash
  Stays-pass (m ∷ ms) zero (h, hs) = h
  Stays-pass (m ∷ ms) (suc i) (h, hs) = Stays-pass ms i hs

  pub Stays-passes : (n : ℕ) (ms : List Step) → AllStay ms → Stays R (passes_loop n ms)
  Stays-passes zero ms hs = Stays-pure tt
  Stays-passes (suc n) [] hs = Stays-crash
  Stays-passes (suc n) (m ∷ ms) (h, hs) = Stays-bind h (λ _. Stays-passes n ms hs)

  pub Stays-reverse : (n : ℕ) (ms : List Step) → AllStay ms → Stays R (reverse_loop n ms)
  Stays-reverse zero ms hs = Stays-pure tt
  Stays-reverse (suc n) [] hs = Stays-crash
  Stays-reverse (suc n) (m ∷ ms) (h, hs) = Stays-bind (Stays-reverse n ms hs) (λ _. h)

  -- For a pointer, a null pointer apart.
  pub Stays-pointer :
      {A : Type 0} (p : Pointer) {m : Gen A} {f : Node → Gen A}
      → Stays R m
      → ((n : Node) → Stays R (f n))
      → Stays R (elim p [ nil ↦ m | to n ↦ f n ])
  Stays-pointer nil h h' = h
  Stays-pointer (to n) h h' = h' n

-- The rules for the actions.
pub ruleset steps = (
  Stays-bind, Stays-if, Stays-set, Stays-renamed, Stays-emit, Stays-temporary, Stays-label,
  Stays-pure, Stays-exit, Stays-crash, Stays-argument,
)
