-- ===== src/Ifj/Parser/Paths.antt =====
-- 2/IFJ/parser.c: the check for a missing return statement against the paths through a body.
use vut_projects.Base.{
  ℕ, ◌≡◌, refl, sym, ◌∙◌, ◌⊎◌, inl, inr, Bool, true, false, not, ◌&&◌, ◌||◌, if◌then◌else◌,
  Bool-cases, subst,
}
use vut_projects.Ifj.Run.{Run, ok, exit, ◌>>=◌, ok-bind, err_semantic_params, err_semantic_return}
use vut_projects.Ifj.Ast.{
  DataType, Fields, Pointer, Pointers, node_return, node_if, node_while, nil, to, cell, void,
  same_type,
}
use vut_projects.Ifj.Parser.Types.{can_assign_type}
use vut_projects.Ifj.Parser.Returns.{
  has_type, check_return_types_recursive, check_all_return_types, check_return_types,
}

-- Some path through the statements from this one on comes to their end without a return. A branch
-- that is not there does nothing, and a loop may be left at once.
pub data Falls : Pointer → Type 0 where
  at_end : Falls nil
  through_body :
      {f : Fields} {left right next condition body : Pointer} {ps as' : Pointers}
      → has_type node_return f ≡ false
      → has_type node_if f ≡ true
      → Falls body
      → Falls next
      → Falls (to (cell f left right next condition body ps as'))
  through_else :
      {f : Fields} {left right next condition body : Pointer} {ps as' : Pointers}
      → has_type node_return f ≡ false
      → has_type node_if f ≡ true
      → Falls left
      → Falls next
      → Falls (to (cell f left right next condition body ps as'))
  past_loop :
      {f : Fields} {left right next condition body : Pointer} {ps as' : Pointers}
      → has_type node_return f ≡ false
      → has_type node_if f ≡ false
      → has_type node_while f ≡ true
      → Falls next
      → Falls (to (cell f left right next condition body ps as'))
  through_parts :
      {f : Fields} {left right next condition body : Pointer} {ps as' : Pointers}
      → has_type node_return f ≡ false
      → has_type node_if f ≡ false
      → has_type node_while f ≡ false
      → Falls body
      → Falls left
      → Falls next
      → Falls (to (cell f left right next condition body ps as'))

-- What the answer of the check says.
abbrev pub Decides : Bool → Pointer → Type 0
Decides true n = Falls n → ⊥
Decides false n = Falls n

module _ {f : Fields} {left right next condition body : Pointer} {ps as' : Pointers} where
  never_behind_return :
      has_type node_return f ≡ true → Falls (to (cell f left right next condition body ps as')) → ⊥
  never_behind_return h (through_body o _ _ _) = cc
  never_behind_return h (through_else o _ _ _) = cc
  never_behind_return h (past_loop o _ _ _) = cc
  never_behind_return h (through_parts o _ _ _ _ _) = cc

  of_branches :
      has_type node_if f ≡ true
      → Falls (to (cell f left right next condition body ps as'))
      → (Falls body ⊎ Falls left) × Falls next
  of_branches h (through_body _ _ b n) = (inl b, n)
  of_branches h (through_else _ _ l n) = (inr l, n)
  of_branches h (past_loop _ o _ _) = cc
  of_branches h (through_parts _ o _ _ _ _) = cc

  of_loop :
      has_type node_if f ≡ false
      → has_type node_while f ≡ true
      → Falls (to (cell f left right next condition body ps as'))
      → Falls next
  of_loop h h' (through_body _ o _ _) = cc
  of_loop h h' (through_else _ o _ _) = cc
  of_loop h h' (past_loop _ _ _ n) = n
  of_loop h h' (through_parts _ _ o _ _ _) = cc

  of_parts :
      has_type node_if f ≡ false
      → has_type node_while f ≡ false
      → Falls (to (cell f left right next condition body ps as'))
      → Falls body × Falls left × Falls next
  of_parts h h' (through_body _ o _ _) = cc
  of_parts h h' (through_else _ o _ _) = cc
  of_parts h h' (past_loop _ _ o _) = cc
  of_parts h h' (through_parts _ _ _ b l n) = (b, l, n)

module _ (f : Fields) (left right next condition body : Pointer) (ps as' : Pointers) where
  branches-Decides :
      (x y b : Bool) (in_next : Run Bool)
      → has_type node_return f ≡ false
      → has_type node_if f ≡ true
      → Decides x body
      → Decides y left
      → (in_next ≡ ok b → Decides b next)
      → (if x && y then ok true else in_next) ≡ ok b
      → Decides b (to (cell f left right next condition body ps as'))
  branches-Decides true true true in_next o h x y n e =
      λ falls. elim (of_branches h falls).0 [ inl falls' ↦ x falls' | inr falls' ↦ y falls' ]
  branches-Decides true true false in_next o h x y n e = cc
  branches-Decides true false true in_next o h x y n e = λ falls. n e (of_branches h falls).1
  branches-Decides true false false in_next o h x y n e = through_else o h y (n e)
  branches-Decides false y true in_next o h x y' n e = λ falls. n e (of_branches h falls).1
  branches-Decides false y false in_next o h x y' n e = through_body o h x (n e)

  loop-Decides :
      (b : Bool)
      → has_type node_return f ≡ false
      → has_type node_if f ≡ false
      → has_type node_while f ≡ true
      → Decides b next
      → Decides b (to (cell f left right next condition body ps as'))
  loop-Decides true o h h' n = λ falls. n (of_loop h h' falls)
  loop-Decides false o h h' n = past_loop o h h' n

  parts-Decides :
      (x y b : Bool) (in_next : Run Bool)
      → has_type node_return f ≡ false
      → has_type node_if f ≡ false
      → has_type node_while f ≡ false
      → Decides x body
      → Decides y left
      → (in_next ≡ ok b → Decides b next)
      → (if x || y then ok true else in_next) ≡ ok b
      → Decides b (to (cell f left right next condition body ps as'))
  parts-Decides true y true in_next o h h' x y' n e = λ falls. x (of_parts h h' falls).0
  parts-Decides true y false in_next o h h' x y' n e = cc
  parts-Decides false true true in_next o h h' x y n e = λ falls. y (of_parts h h' falls).1
  parts-Decides false true false in_next o h h' x y n e = cc
  parts-Decides false false true in_next o h h' x y n e = λ falls. n e (of_parts h h' falls).2
  parts-Decides false false false in_next o h h' x y n e = through_parts o h h' x y (n e)

true_or_exit : (c b : Bool) (code : ℕ) → (if c then exit code else ok true) ≡ ok b → b ≡ true
true_or_exit true b code e = cc
true_or_exit false b code e = cc

-- Where the check answers, it says true just when no path through the statements comes to their
-- end without a return.
pub recursive-Decides :
    (n : Pointer) (type : DataType) (b : Bool)
    → check_return_types_recursive n type ≡ ok b
    → Decides b n
unfolding check_return_types_recursive
recursive-Decides nil type true e = cc
recursive-Decides nil type false e = at_end
recursive-Decides (to (cell f left right next condition body ps as')) type b e =
    let check = check_return_types_recursive in
    let behind = recursive-Decides next type b in
    elim (Bool-cases (has_type node_return f)) [
      | inl returns ↦
          let run : check (to (cell f left right next condition body ps as')) type ≡ (
              if not (same_type f.data_type type) && not (can_assign_type type f.data_type)
              then exit err_semantic_params
              else ok true) =
            rw returns refl in
          rw (true_or_exit _ b err_semantic_params (sym run ∙ e)) (never_behind_return returns)
      | inr other ↦ elim (Bool-cases (has_type node_if f)) [
        | inl branches ↦
            let run : check (to (cell f left right next condition body ps as')) type ≡ (
                check body type >>= λ x.
                check left type >>= λ y. if x && y then ok true else check next type) =
              rw (other, branches) refl in
            let (x, ex, rest) = ok-bind _ _ b (sym run ∙ e) in
            let (y, ey, last) = ok-bind _ _ b rest in
            branches-Decides f left right next condition body ps as' x y b (check next type) other
              branches (recursive-Decides body type x ex) (recursive-Decides left type y ey) behind
              last
        | inr plain ↦ elim (Bool-cases (has_type node_while f)) [
          | inl loops ↦
              let run : check (to (cell f left right next condition body ps as')) type
                  ≡ (check body type >>= λ x. check next type) =
                rw (other, plain, loops) refl in
              let (x, ex, rest) =
                ok-bind (check body type) (λ _. check next type) b (sym run ∙ e) in
              loop-Decides f left right next condition body ps as' b other plain loops (behind rest)
          | inr parts ↦
              let run : check (to (cell f left right next condition body ps as')) type ≡ (
                  check body type >>= λ x.
                  check left type >>= λ y. if x || y then ok true else check next type) =
                rw (other, plain, parts) refl in
              let (x, ex, rest) = ok-bind _ _ b (sym run ∙ e) in
              let (y, ey, last) = ok-bind _ _ b rest in
              parts-Decides f left right next condition body ps as' x y b (check next type) other
                plain parts (recursive-Decides body type x ex) (recursive-Decides left type y ey)
                behind last
        ]
      ]
    ]

passes_if :
    (b : Bool) (m : Run Bool) (k : Bool → Run (Unit {0}))
    → ((if not b then exit err_semantic_return else m) >>= k) ≡ ok tt
    → b ≡ true
passes_if true m k e = refl
passes_if false m k e = cc

-- A body that passes the checks of a function with a result has no path through it that comes to
-- its end without a return.
pub checked-Returns :
    (body : Pointer) (type : DataType)
    → same_type type void ≡ false
    → check_return_types body type ≡ ok tt
    → Falls body
    → ⊥
unfolding check_return_types
checked-Returns body type other e =
    let run : check_return_types body type ≡ (
        check_return_types_recursive body type >>= λ has_return.
        (if not has_return then exit err_semantic_return else check_all_return_types body type)
        >>= λ compatible. if not compatible then exit err_semantic_params else ok tt) =
      rw other refl in
    let (b, eb, rest) = ok-bind (check_return_types_recursive body type) _ tt (sym run ∙ e) in
    subst (λ c. Decides c body) (passes_if b _ _ rest) (recursive-Decides body type b eb)
