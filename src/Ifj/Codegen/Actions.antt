-- ===== src/Ifj/Codegen/Actions.antt =====
-- 2/IFJ/codegen.c: the actions that the generator is made of. A function of the source is a step from
-- a state to a result with a state. A string that is NULL is a crash where it is read or printed.
use vut_projects.Base.{
  ℕ, zero, suc, Bool, Option, none, some, List, [], ◌∷◌, ◌++◌, if◌then◌else◌, Text, codes, text_eq,
}
use Prim.Native.String.{String}
use vut_projects.Ifj.Run
use vut_projects.Ifj.Run.{Run, ok, exit, crash, err_internal}
use vut_projects.Ifj.Utils.{decimal}
use vut_projects.Ifj.Ast.{Pointer, nil, to, Pointers, end, entry, fields}
use vut_projects.Ifj.Codegen.{
  Generator, Operand, lf, word, add_declared_variable, generate_unique_var_name,
  get_temp_var_name_for_node, generate_unique_label, remove_last_prefix,
}

abbrev pub Gen : Type 0 → Type 0
Gen A = Generator → Run (A × Generator)

abbrev pub Step : Type 0
Step = Gen (Unit {0})

module _ {A : Type 0} where
  unfoldable pub pure : A → Gen A
  pure a g = ok (a, g)

  unfoldable pub error_exit : Gen A
  error_exit g = exit err_internal

  unfoldable pub null_pointer : Gen A
  null_pointer g = crash

infixl 1 ◌>>=◌ ◌>>◌
unfoldable pub ◌>>=◌ : {A B : Type 0} → Gen A → (A → Gen B) → Gen B
m >>= f = λ g. Run.◌>>=◌ (m g) (λ (a, g'). f a g')

abbrev pub ◌>>◌ : {A B : Type 0} → Gen A → Gen B → Gen B
m >> k = m >>= λ _. k

abbrev pub done : Step
done = pure tt

abbrev pub when : Bool → Step → Step
when b m = if b then m else done

abbrev pub set : Option Text → Gen Text
set none = null_pointer
set (some text) = pure text

abbrev pub is : Text → String → Bool
is name literal = text_eq name (codes literal)

abbrev pub address_of : Pointer → ℕ
address_of nil = 0
address_of (to n) = (fields n).address

abbrev pub argument_at : Pointers → ℕ → Gen Pointer
argument_at end i = null_pointer
argument_at (entry p ps) zero = pure p
argument_at (entry p ps) (suc i) = argument_at ps i

-- What is done for the argument with this index.
abbrev pub pass_at : List Step → ℕ → Step
pass_at [] i = null_pointer
pass_at (m ∷ ms) zero = m
pass_at (m ∷ ms) (suc i) = pass_at ms i

-- The loop over the first `arg_count` arguments, and the loop from the last of them down.
abbrev pub passes_loop : (arg_count : ℕ) → List Step → Step
passes_loop zero ms = done
passes_loop (suc n) [] = null_pointer
passes_loop (suc n) (m ∷ ms) = m >> passes_loop n ms

abbrev pub reverse_loop : (arg_count : ℕ) → List Step → Step
reverse_loop zero ms = done
reverse_loop (suc n) [] = null_pointer
reverse_loop (suc n) (m ∷ ms) = reverse_loop n ms >> m

unfoldable pub renamed : Option Text → Gen Text
renamed name g = Run.◌>>=◌ (remove_last_prefix name) (λ var_name. set var_name g)

unfoldable pub declare : Text → Step
declare var_name g = ok (tt, add_declared_variable var_name g)

unfoldable pub new_temporary : (base_name : String) → (node : ℕ) → (key : String) → Step
new_temporary base_name node key g =
    ok (tt, (generate_unique_var_name (codes base_name) node (some (codes key)) g).1)

unfoldable pub temporary : (node : ℕ) → (key : String) → Gen Text
temporary node key g =
    Run.◌>>=◌ (get_temp_var_name_for_node node (codes key) g) (λ var_name. ok (var_name, g))

unfoldable pub unique_label : Gen ℕ
unique_label g = ok (generate_unique_label g)

-- `fprintf` of a line.
unfoldable pub emit : (opcode : String) → List Operand → Step
emit opcode operands g =
    ok (tt, record g { output = record { opcode = codes opcode; operands = operands } ∷ g.output })

abbrev pub lit : String → Operand
lit literal = word (codes literal)

-- A label with its number, as `$else_%d`.
abbrev pub label : String → ℕ → Operand
label prefix number = word (codes prefix ++ decimal number)

abbrev pub push : Text → Step
push var_name = emit "PUSHS" (lf var_name ∷ [])

abbrev pub pop : Text → Step
pop var_name = emit "POPS" (lf var_name ∷ [])
