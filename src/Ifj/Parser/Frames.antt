-- ===== src/Ifj/Parser/Frames.antt =====
-- 2/IFJ/parser.c: what the parse of a function does to the state of the parser.
use vut_projects.Base.{
  ℕ, suc, ◌+◌, ◌≤◌, ◌<◌, ◌≡◌, refl, sym, ◌∙◌, Bool, true, Option, some, List, [], ◌∷◌, arith, leb,
  ◌⊎◌, subst, length, Text, text_eq, eq_of_text_eq, Bool-cases, inl, inr,
}
use vut_projects.Ifj.Run.{ok, exit, err_internal, Halts, Halts-weaken}
use vut_projects.Ifj.Symtable.{Symbol, SymTable, mark_used, symtable_search, symtable_insert}
use vut_projects.Ifj.Symtable.Valid.{IsValid, lookup}
use vut_projects.Ifj.Symtable.Refine.{insert-lookup, search-lookup}
use vut_projects.Ifj.Scanner.{unread}
use vut_projects.Ifj.Scanner.Position.{at, unread-at}
use vut_projects.Ifj.Parser.{Parser, max_scope_depth, left}
use vut_projects.Ifj.Parser.Scopes.{enter_scope, exit_scope}
use vut_projects.Ifj.Parser.Program.{parse_function}
use vut_projects.Ifj.Parser.Logic.{IsFrame}
use vut_projects.Ifj.Parser.Ends.Functions.{function-Consumes}

-- The stack of scopes is as it was, and the identifiers of scopes only grow.
abbrev pub KeepsScopes : Parser → Parser → Type 0
KeepsScopes p q = (q.scope_stack ≡ p.scope_stack) × (p.scope_counter ≤ q.scope_counter)

enter_lem :
    (p p' : Parser)
    → enter_scope p ≡ ok (tt, p')
    → (p'.scope_stack ≡ (p.scope_counter + 1) ∷ p.scope_stack)
      × (p'.scope_counter ≡ p.scope_counter + 1)
      × (p'.symtable ≡ p.symtable)
unfolding enter_scope
enter_lem p p' enters = elim (Bool-cases (leb max_scope_depth (length p.scope_stack))) [
  | inl full ↦ absurd (cc (full, enters))
  | inr spare ↦ (cc (spare, enters), cc (spare, enters), cc (spare, enters))
]

exit_lem :
    (p p' : Parser) (id : ℕ) (stack : List ℕ)
    → exit_scope p ≡ ok (tt, p')
    → p.scope_stack ≡ id ∷ stack
    → (p'.scope_stack ≡ stack) × (p'.scope_counter ≡ p.scope_counter)
unfolding exit_scope
exit_lem p p' id stack exits e =
    let run : exit_scope p ≡ ok (tt, record p { scope_stack = stack }) = rw e refl in
    (cc (run, exits), cc (run, exits))

exit-symtable : (p p' : Parser) → exit_scope p ≡ ok (tt, p') → p'.symtable ≡ p.symtable
unfolding exit_scope
exit-symtable p p' exits = by_stack p.scope_stack refl
  where
    by_stack : (stack : List ℕ) → stack ≡ p.scope_stack → p'.symtable ≡ p.symtable
    by_stack [] e =
        let run : exit_scope p ≡ exit err_internal = rw (sym e) refl in absurd (cc (run, exits))
    by_stack (id ∷ stack) e =
        let run : exit_scope p ≡ ok (tt, record p { scope_stack = stack }) = rw (sym e) refl in
        cc (run, exits)

KeepsScopes-IsFrame : IsFrame KeepsScopes
unfolding enter_scope exit_scope
KeepsScopes-IsFrame = record {
  same = λ p. (refl, omega arith);
  then_ = λ p q r (e, less) (e', less'). (e' ∙ e, omega arith);
  reads = λ p s token. (refl, omega arith);
  allocates = λ p. (refl, omega arith);
  searches = λ p key found st e. (refl, omega arith);
  inserts = λ p key symbol fresh st named e. (refl, omega arith);
  encloses = λ p p' q q' enters (e, less) exits.
      let (stack, counter, _) = enter_lem p p' enters in
      let (stack', counter') = exit_lem q q' _ p.scope_stack exits (e ∙ stack) in
      (stack', omega arith);
}

-- A valid table stays valid, and a symbol in it stays, but for the mark of its use.
abbrev pub Grows : SymTable → SymTable → Type 0
Grows st st' =
    IsValid st'
    × ((k : Text) (s : Symbol)
        → lookup st k ≡ some s
        → (lookup st' k ≡ some s) ⊎ (lookup st' k ≡ some (mark_used s)))

abbrev pub KeepsSymbols : Parser → Parser → Type 0
KeepsSymbols p q = IsValid p.symtable → Grows p.symtable q.symtable

Grows-refl : (st : SymTable) → IsValid st → Grows st st
Grows-refl st v = (v, λ k s e. inl e)

Grows-trans : (a b c : SymTable) → Grows a b → Grows b c → Grows a c
Grows-trans a b c (_, f) (v, g) = (
  v,
  λ k s e. elim (f k s e) [
    | inl e' ↦ g k s e'
    | inr e' ↦ elim (g k (mark_used s) e') [ inl e'' ↦ inr e'' | inr e'' ↦ inr e'' ]
  ],
)

search-Grows :
    (st st' : SymTable) (key : Text) (found : Option Symbol)
    → IsValid st
    → symtable_search st (some key) ≡ ok (found, st')
    → Grows st st'
search-Grows st st' key found v run =
    let (st1, run1, v1, _, same) = search-lookup v key in
    let e : st1 ≡ st' = cc (run, run1) in
    rw (sym e) (
      v1,
      λ k s e. elim (Bool-cases (text_eq key k)) [
        | inl held ↦ rw (same k, held, e) (inr refl)
        | inr other ↦ rw (same k, other) (inl e)
      ],
    )

insert-Grows :
    (st st' : SymTable) (key : Text) (symbol : Symbol) (fresh : Bool)
    → IsValid st
    → symbol.name ≡ some key
    → symtable_insert st (some key) (some symbol) ≡ ok (fresh, st')
    → Grows st st'
insert-Grows st st' key symbol fresh v named run =
    let (st1, run1, v1, _, same) = insert-lookup key symbol v named in
    let e : st1 ≡ st' = cc (run, run1) in
    rw (sym e) (
      v1,
      λ k s e. elim (Bool-cases (text_eq key k)) [
        | inl held ↦
            let known : lookup st key ≡ some s = rw (eq_of_text_eq key k held) e in
            rw (same k, held, known) (inl e)
        | inr other ↦ rw (same k, other) (inl e)
      ],
    )

KeepsSymbols-IsFrame : IsFrame KeepsSymbols
unfolding enter_scope exit_scope
KeepsSymbols-IsFrame = record {
  same = λ p v. Grows-refl p.symtable v;
  then_ = λ p q r f g v. Grows-trans _ _ _ (f v) (g (f v).0);
  reads = λ p s token v. Grows-refl p.symtable v;
  allocates = λ p v. Grows-refl p.symtable v;
  searches = λ p key found st e v. search-Grows p.symtable st key found v e;
  inserts =
      λ p key symbol fresh st named e v. insert-Grows p.symtable st key symbol fresh v named e;
  encloses = λ p p' q q' enters f exits v.
      let (_, _, same) = enter_lem p p' enters in
      rw (exit-symtable q q' exits) (subst (λ st. Grows st q.symtable) same (f (rw same v)));
}

-- A state of the parser in front of a text.
abbrev pub Reads : Parser → Text → Type 0
Reads p text = (line : ℕ) × (column : ℕ) × (p.scanner ≡ at text line column)

-- Less of the file is left than before, its current token included.
abbrev pub Advances : Parser → Parser → Type 0
Advances p q = left q.scanner q.current_token < left p.scanner p.current_token

function-Advances :
    {R : Parser → Parser → Type 0} (frame : IsFrame R) (p : Parser) (text : Text)
    → Reads p text
    → Halts
        (parse_function 0 true p)
        (λ (_, q). ((rest : Text) × Reads q rest) × Advances p q × R p q)
function-Advances frame p text (line, column, e) =
    let n = left p.scanner p.current_token in
    let same : length text ≡ unread p.scanner = rw e (sym (unread-at text line column)) in
    Halts-weaken _ _ (parse_function 0 true p)
      ((function-Consumes frame 0 (suc n) n (omega arith)).from_place p
        (text, line, column, e, omega (arith, same)))
      (λ (node, q) ((rest, l, c, e', less), r).
        let same' : length rest ≡ unread q.scanner = rw e' (sym (unread-at rest l c)) in
        ((rest, (l, c, e')), omega (arith, less, same'), r))

-- The parse of the definition of a function ends, wherever the scanner stands: with an error, or
-- with less of the file left than before.
pub function-Ends :
    (p : Parser) (text : Text)
    → Reads p text
    → Halts (parse_function 0 true p) (λ (_, q). ((rest : Text) × Reads q rest) × Advances p q)
function-Ends p text reads =
    Halts-weaken _ _ _ (function-Advances KeepsScopes-IsFrame p text reads)
      (λ a (r, less, _). (r, less))

-- When the definition of a function is parsed, the stack of scopes is the one it was before, and
-- the number of the last scope has not become smaller.
pub function-KeepsScopes :
    (p : Parser) (text : Text)
    → Reads p text
    → Halts (parse_function 0 true p) (λ (_, q). KeepsScopes p q)
function-KeepsScopes p text reads =
    Halts-weaken _ _ _ (function-Advances KeepsScopes-IsFrame p text reads) (λ a (_, _, r). r)

-- When the definition of a function is parsed with a valid symbol table, the table is valid
-- afterwards, and each symbol is in it as before, but for the mark of its use.
pub function-Grows :
    (p : Parser) (text : Text)
    → Reads p text
    → IsValid p.symtable
    → Halts (parse_function 0 true p) (λ (_, q). Grows p.symtable q.symtable)
function-Grows p text reads v =
    Halts-weaken _ _ _ (function-Advances KeepsSymbols-IsFrame p text reads) (λ a (_, _, r). r v)
