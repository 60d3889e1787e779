-- ===== src/Ifj/Parser/Typed.antt =====
-- 2/IFJ/parser.c: the types of operations and of assignments.
use vut_projects.Base.{
  ℕ, [], ◌∷◌, get_or, ◌≡◌, refl, sym, ◌∙◌, ap, ◌⊎◌, inl, inr, Bool, true, false, not, ◌&&◌, ◌||◌,
  arith, if◌then◌else◌, Text, text_eq, codes,
}
use vut_projects.Ifj.Run.{Ensures, Ensures-bind, Ensures-ok, Ensures-exit, err_semantic_type}
use vut_projects.Ifj.Ast.{
  DataType, null, int, float, all, void, bool, u8, unknown, int_nullable, float_nullable,
  u8_nullable, data_code, same_type, Node, to, type_of, left_of, right_of, is_node, node_literal,
  create_binary_operation_node, create_literal_node,
}
use vut_projects.Ifj.Parser.{Parser, Parse, pure, error_exit, ◌>>=◌, safe_malloc}
use vut_projects.Ifj.Parser.Types.{is_nullable}
use vut_projects.Ifj.Parser.Operations.{
  convert_to_float_node, is_equality, is_boolean, is_string, base_type, create_typed, convert_if,
  compare_nodes, calculate_nodes, perform_type_checking_and_create_node,
}

abbrev decode : ℕ → DataType
decode n =
    get_or
      (null ∷ int ∷ float ∷ all ∷ void ∷ bool ∷ u8 ∷ unknown ∷ int_nullable ∷ float_nullable ∷ []) n
      u8_nullable

decode-code : (t : DataType) → decode (data_code t) ≡ t
decode-code null = refl
decode-code int = refl
decode-code float = refl
decode-code all = refl
decode-code void = refl
decode-code bool = refl
decode-code u8 = refl
decode-code unknown = refl
decode-code int_nullable = refl
decode-code float_nullable = refl
decode-code u8_nullable = refl

pub same_type-eq : (s t : DataType) → same_type s t ≡ true → s ≡ t
same_type-eq s t h =
    let codes : data_code s ≡ data_code t = ground arith in
    sym (decode-code s) ∙ ap decode codes ∙ decode-code t

-- The types that an operator may join.
abbrev pub Agree : Text → DataType → DataType → Type 0
Agree op s t =
    if is_equality op
    then (((base_type s ≡ base_type t) ⊎ ((is_nullable s ≡ true) × (t ≡ null)))
        ⊎ ((s ≡ null) × (is_nullable t ≡ true)))
    else ((s ≡ t) × ((s ≡ int) ⊎ (s ≡ float)))

-- The node of an operation on two operands whose types agree, with the type of its value.
abbrev pub Typed : Text → Node → Type 0
Typed op n =
    (l : Node) × (r : Node) × (left_of n ≡ to l)
    × (right_of n ≡ to r)
    × Agree op (type_of l) (type_of r)
    × (type_of n ≡ (if is_boolean op then bool else type_of l))

-- From any state the action gives a result with the property, or ends with this code.
record Yields {A : Type 0} (code : ℕ) (m : Parse A) (Q : A → Type 0) : Type 0 where
  at_any : (p : Parser) → Ensures (m p) code (λ (a, _). Q a)

module _ {A : Type 0} {code : ℕ} {Q : A → Type 0} where
  Yields-pure : (a : A) → Q a → Yields code (pure a) Q
  unfolding pure
  Yields-pure a h = record { at_any = λ p. Ensures-ok code _ _ h }

  Yields-exit : Yields code (error_exit code) Q
  unfolding error_exit
  Yields-exit = record { at_any = λ p. Ensures-exit code _ }

  Yields-cases :
      (b : Bool) {m k : Parse A}
      → (b ≡ true → Yields code m Q)
      → (b ≡ false → Yields code k Q)
      → Yields code (if b then m else k) Q
  Yields-cases true h h' = h refl
  Yields-cases false h h' = h' refl

  Yields-bind :
      {B : Type 0} {P : B → Type 0} {m : Parse B} {f : B → Parse A}
      → Yields code m P
      → ((b : B) → P b → Yields code (f b) Q)
      → Yields code (m >>= f) Q
  unfolding ◌>>=◌
  Yields-bind {m} h k = record {
    at_any = λ p. Ensures-bind code _ _ (m p) _ (h.at_any p) (λ (b, q) at_b. (k b at_b).at_any q);
  }

Yields-malloc : {code : ℕ} → Yields code safe_malloc (λ _. Unit)
unfolding safe_malloc
Yields-malloc {code} = record { at_any = λ p. Ensures-ok code _ _ tt }

convert-float :
    (n : Node) → Yields err_semantic_type (convert_to_float_node n) (λ n'. type_of n' ≡ float)
unfolding convert_to_float_node create_literal_node
convert-float n =
    Yields-cases (not (same_type (type_of n) int)) (λ _. Yields-exit)
      (λ _. Yields-bind Yields-malloc (λ block _. Yields-pure _ refl))

create-Typed :
    (op : Text) (l r : Node) (type : DataType)
    → Agree op (type_of l) (type_of r)
    → type ≡ (if is_boolean op then bool else type_of l)
    → Yields err_semantic_type (create_typed op l r type) (Typed op)
unfolding create_typed create_binary_operation_node
create-Typed op l r type agree e =
    Yields-bind Yields-malloc (λ block _. Yields-pure _ (l, r, refl, refl, agree, e))

-- The base type that goes with an operand after a conversion.
convert_if-base :
    (b : Bool) (n : Node)
    → Yields err_semantic_type
        (convert_if b n (base_type (type_of n)))
        (λ (n', t). t ≡ base_type (type_of n'))
unfolding convert_if is_nullable
convert_if-base true n = Yields-bind (convert-float n) (λ n' e. Yields-pure _ (rw e refl))
convert_if-base false n = Yields-pure _ refl

or_last : (a b c d e : Bool) → e ≡ true → (a || b || c || d || e) ≡ true
or_last a b c d e h = ground arith

both_or_both :
    (a b c d : Bool)
    → ((a && b) || (c && d)) ≡ true
    → ((a ≡ true) × (b ≡ true)) ⊎ ((c ≡ true) × (d ≡ true))
both_or_both a b c d h = ground arith

not_any : (a b c d : Bool) → (a || b || c || d) ≡ false → (a ≡ false) × (b ≡ false)
not_any a b c d h = ground arith

bool_result :
    (op : Text) (t : DataType) → is_boolean op ≡ true → bool ≡ (if is_boolean op then bool else t)
bool_result op t h = rw h refl

boolean_of_equality : (op : Text) → is_equality op ≡ true → is_boolean op ≡ true
boolean_of_equality op h =
    or_last (text_eq op (codes ">=")) (text_eq op (codes "<=")) (text_eq op (codes "<"))
      (text_eq op (codes ">")) (is_equality op) h

base_plain : (t : DataType) → is_nullable t ≡ false → base_type t ≡ t
base_plain t h = rw h refl

compare-Typed :
    (op : Text) (l r : Node)
    → is_equality op ≡ true
    → Yields err_semantic_type (compare_nodes op l r) (Typed op)
unfolding compare_nodes
compare-Typed op l r equality =
    let result = λ (t : DataType). bool_result op t (boolean_of_equality op equality) in
    Yields-cases (same_type (type_of l) null || same_type (type_of r) null)
      (λ _.
        Yields-cases
          ((is_nullable (type_of l) && same_type (type_of r) null)
            || (same_type (type_of l) null && is_nullable (type_of r)))
          (λ nulls. create-Typed op l r bool (rw equality (with_null nulls)) (result (type_of l)))
          (λ _. Yields-exit))
      (λ _. Yields-bind (convert_if-base _ l) (λ (l', t) e.
        Yields-bind (convert_if-base _ r) (λ (r', t') e'.
          Yields-cases (not (same_type t t')) (λ _. Yields-exit)
            (λ same.
              let equal : t ≡ t' = same_type-eq t t' (ground (arith, same)) in
              create-Typed op l' r' bool (rw equality (inl (inl (sym e ∙ equal ∙ e'))))
                (result (type_of l'))))))
  where
    with_null :
        ((is_nullable (type_of l) && same_type (type_of r) null)
            || (same_type (type_of l) null && is_nullable (type_of r)))
          ≡ true
        → ((base_type (type_of l) ≡ base_type (type_of r))
            ⊎ ((is_nullable (type_of l) ≡ true) × (type_of r ≡ null)))
          ⊎ ((type_of l ≡ null) × (is_nullable (type_of r) ≡ true))
    with_null h =
        elim (both_or_both (is_nullable (type_of l)) (same_type (type_of r) null)
          (same_type (type_of l) null) (is_nullable (type_of r)) h) [
            | inl (a, b) ↦ inl (inr (a, same_type-eq _ null b))
            | inr (a, b) ↦ inr (same_type-eq _ null a, b)
          ]

either : (a b : Bool) → (a || b) ≡ true → (a ≡ true) ⊎ (b ≡ true)
either a b h = ground arith

first : (a b : Bool) → (a && b) ≡ true → a ≡ true
first a b h = ground arith

abbrev mixed : DataType → DataType → Bool
mixed s t = (same_type s int && same_type t float) || (same_type s float && same_type t int)

mixed-int_left : (s t : DataType) → mixed s t ≡ true → same_type s int ≡ true → t ≡ float
mixed-int_left s t h is_int =
    elim (both_or_both (same_type s int) (same_type t float) (same_type s float) (same_type t int)
      h) [
        | inl (a, b) ↦ same_type-eq t float b
        | inr (a, b) ↦ absurd (cc (same_type-eq s int is_int, same_type-eq s float a))
      ]

mixed-int_right : (s t : DataType) → mixed s t ≡ true → same_type t int ≡ true → s ≡ float
mixed-int_right s t h is_int =
    elim (both_or_both (same_type s int) (same_type t float) (same_type s float) (same_type t int)
      h) [
        | inl (a, b) ↦ absurd (cc (same_type-eq t int is_int, same_type-eq t float b))
        | inr (a, b) ↦ same_type-eq s float a
      ]

calculate-Typed :
    (op : Text) (l r : Node)
    → is_equality op ≡ false
    → Yields err_semantic_type (calculate_nodes op l r) (Typed op)
unfolding calculate_nodes
calculate-Typed op l r other =
    let lb = base_type (type_of l) in
    let rb = base_type (type_of r) in
    Yields-cases
      (is_nullable (type_of l)
        || is_nullable (type_of r)
        || same_type (type_of l) null
        || same_type (type_of r) null)
      (λ _. Yields-exit)
      (λ plain.
        let (plain_l, plain_r) = not_any _ _ _ _ plain in
        let bl = base_plain (type_of l) plain_l in
        let br = base_plain (type_of r) plain_r in
        Yields-cases (same_type lb rb)
          (λ same.
            Yields-cases (same_type lb int || same_type lb float)
              (λ number.
                let equal : type_of l ≡ type_of r = sym bl ∙ same_type-eq lb rb same ∙ br in
                create-Typed op l r _ (rw other (equal, number_type (type_of l) lb bl number))
                  (rw bl refl))
              (λ _. Yields-exit))
          (λ _.
            Yields-cases (mixed lb rb)
              (λ mixes.
                Yields-cases (same_type lb int && is_node node_literal l)
                  (λ left_int. Yields-bind (convert-float l) (λ l' e.
                    let er : type_of r ≡ float =
                      sym br ∙ mixed-int_left lb rb mixes (first _ _ left_int) in
                    create-Typed op l' r _ (rw other (e ∙ sym er, inr e)) (rw e refl)))
                  (λ _.
                    Yields-cases (same_type rb int && is_node node_literal r)
                      (λ right_int. Yields-bind (convert-float r) (λ r' e.
                        let el : type_of l ≡ float =
                          sym bl ∙ mixed-int_right lb rb mixes (first _ _ right_int) in
                        create-Typed op l r' _ (rw other (el ∙ sym e, inr el)) (rw el refl)))
                      (λ _. Yields-exit)))
              (λ _. Yields-exit)))
  where
    number_type :
        (t b : DataType)
        → b ≡ t
        → (same_type b int || same_type b float) ≡ true
        → (t ≡ int) ⊎ (t ≡ float)
    number_type t b e h = elim (either (same_type b int) (same_type b float) h) [
      | inl a ↦ inl (sym e ∙ same_type-eq b int a)
      | inr a ↦ inr (sym e ∙ same_type-eq b float a)
    ]

-- From any two operands, an operation ends with code 7 or gives a node over two operands whose
-- types agree: for `==` and `!=` they are equal but for a question mark, or one is null and the
-- other may be null; for the other operators they are both int or both float. The type of the
-- node is bool for a comparison, and that of its operands otherwise.
pub perform-Typed :
    (op : Text) (l r : Node) (p : Parser)
    → Ensures
        (perform_type_checking_and_create_node op l r p)
        err_semantic_type
        (λ (n, _). Typed op n)
unfolding perform_type_checking_and_create_node
perform-Typed op l r p = by_operator.at_any p
  where
    by_operator : Yields err_semantic_type (perform_type_checking_and_create_node op l r) (Typed op)
    by_operator =
        Yields-cases (is_string (type_of l) || is_string (type_of r)) (λ _. Yields-exit)
          (λ _. Yields-cases (is_equality op) (compare-Typed op l r) (calculate-Typed op l r))
