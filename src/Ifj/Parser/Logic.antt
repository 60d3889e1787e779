-- ===== src/Ifj/Parser/Logic.antt =====
-- 2/IFJ/parser.c: rules to reason about the parser's functions. A place says where the scanner
-- stands, and a frame what every step does to the rest of the state.
use vut_projects.Base.{
  ℕ, zero, suc, ◌+◌, ◌≤◌, ◌<◌, ◌≡◌, refl, sym, Bool, true, false, Option, some, none, List, [], ◌∷◌,
  leb, arith, ◌⊎◌, inl, inr, if◌then◌else◌, length, Text, Bool-cases,
}
use vut_projects.Ifj.Run.{
  ok, err_lexical, err_syntax, Halts, Halts-bind, Halts-weaken, Halts-same, Halts-Ensures, Halts-ok,
  Halts-exit, err_internal,
}
use vut_projects.Ifj.Symtable.Ends.{search-Halts, insert-Halts}
use vut_projects.Ifj.Symtable.{Symbol, SymTable, symtable_search, symtable_insert}
use vut_projects.Ifj.Ast.{Node, Pointer, nil, to}
use vut_projects.Ifj.Scanner.{Scanner, Token, TokenType, token_eof, unread}
use vut_projects.Ifj.Scanner.Next.{get_next_token}
use vut_projects.Ifj.Scanner.Position.{at, unread-at}
use vut_projects.Ifj.Scanner.Progress.{Progresses, next_token-Progresses}
use vut_projects.Ifj.Parser.{
  Parser, Parse, pure, error_exit, null_pointer, ◌>>=◌, lexeme, same_token, when_token,
  max_scope_depth, with_fuel, left, get_token, expect_token, safe_malloc, search, insert,
}
use vut_projects.Ifj.Parser.Scopes.{enter_scope, exit_scope, in_scope}
pub mod Actions

abbrev pub Place : Type 1
Place = Scanner → Token → Type 0

-- At most `n` is left.
abbrev pub Standing : ℕ → Place
Standing n s token =
    (text : Text) × (line : ℕ) × (column : ℕ) × (s ≡ at text line column)
    × (length text + (if same_token token_eof token.type then 0 else 1) ≤ n)

-- At most `n` is left behind the current token.
abbrev pub Live : ℕ → Place
Live n s token =
    (text : Text) × (line : ℕ) × (column : ℕ) × (s ≡ at text line column) × (length text ≤ n)

-- Less than `n` is left.
abbrev pub Before : ℕ → Place
Before n s token =
    (text : Text) × (line : ℕ) × (column : ℕ) × (s ≡ at text line column)
    × (length text + (if same_token token_eof token.type then 0 else 1) < n)

pub Standing-Standing :
    {m n : ℕ} → m ≤ n → (s : Scanner) (token : Token) → Standing m s token → Standing n s token
Standing-Standing h s token (text, line, column, e, less) =
    (text, line, column, e, omega (arith, less, h))

pub Standing-Before :
    {m n : ℕ} → m < n → (s : Scanner) (token : Token) → Standing m s token → Before n s token
Standing-Before h s token (text, line, column, e, less) =
    (text, line, column, e, omega (arith, less, h))

pub Before-Before :
    {m n : ℕ} → m ≤ n → (s : Scanner) (token : Token) → Before m s token → Before n s token
Before-Before h s token (text, line, column, e, less) =
    (text, line, column, e, omega (arith, less, h))

pub Before-Standing : {n : ℕ} (s : Scanner) (token : Token) → Before n s token → Standing n s token
Before-Standing s token (text, line, column, e, less) = (text, line, column, e, omega (arith, less))

-- What each step of the parser does to its state.
pub record IsFrame (R : Parser → Parser → Type 0) : Type 0 where
  pub same : (p : Parser) → R p p
  pub then_ : (p q r : Parser) → R p q → R q r → R p r
  pub reads :
      (p : Parser) (s : Scanner) (token : Token)
      → R p (record p { scanner = s; current_token = token })
  pub allocates : (p : Parser) → R p (record p { next_block = p.next_block + 1 })
  pub searches :
      (p : Parser) (key : Text) (found : Option Symbol) (st : SymTable)
      → symtable_search p.symtable (some key) ≡ ok (found, st)
      → R p (record p { symtable = st })
  pub inserts :
      (p : Parser) (key : Text) (symbol : Symbol) (fresh : Bool) (st : SymTable)
      → symbol.name ≡ some key
      → symtable_insert p.symtable (some key) (some symbol) ≡ ok (fresh, st)
      → R p (record p { symtable = st })
  pub encloses :
      (p p' q q' : Parser)
      → enter_scope p ≡ ok (tt, p')
      → R p' q
      → exit_scope q ≡ ok (tt, q')
      → R p q'

-- From a state in the place the action ends, with a result in the other place, and its steps are
-- in the frame.
pub record Triple (R : Parser → Parser → Type 0) {A : Type 0} (P : Place) (m : Parse A)
    (Q : A → Place) : Type 0 where
  pub from_place :
      (p : Parser)
      → P p.scanner p.current_token
      → Halts (m p) (λ (a, q). Q a q.scanner q.current_token × R p q)

some_left :
    (b : Bool) (k n : ℕ)
    → b ≡ false
    → k + (if b then 0 else 1) ≤ n
    → (n' : ℕ) × (n ≡ suc n') × (k ≤ n')
some_left true k n h less = cc
some_left false k zero h less = absurd (omega arith)
some_left false k (suc n') h less = (n', refl, omega arith)

eof_lem : (t : TokenType) → same_token token_eof t ≡ true → t ≡ token_eof
eof_lem token_eof h = refl
eof_lem _ h = cc

module _ {R : Parser → Parser → Type 0} (frame : IsFrame R) where
  module _ {A : Type 0} where
    pub Triple-pure :
        {P : Place} {Q : A → Place} (a : A)
        → ((s : Scanner) (t : Token) → P s t → Q a s t)
        → Triple R P (pure a) Q
    unfolding Halts pure
    Triple-pure a h = record {
      from_place = λ p at_p. (h p.scanner p.current_token at_p, frame.same p);
    }

    pub Triple-return : {P : Place} (a : A) → Triple R P (pure a) (λ _. P)
    Triple-return a = Triple-pure a (λ s t at_p. at_p)

    pub Triple-exit : {P : Place} {Q : A → Place} (code : ℕ) → Triple R P (error_exit code) Q
    unfolding Halts error_exit
    Triple-exit code = record { from_place = λ p at_p. tt }

    pub Triple-crash : {P : Place} {Q : A → Place} → Triple R P null_pointer Q
    unfolding Halts null_pointer
    Triple-crash = record { from_place = λ p at_p. tt }

    pub Triple-weaken :
        {P P' : Place} {Q Q' : A → Place} {m : Parse A}
        → Triple R P m Q
        → ((s : Scanner) (t : Token) → P' s t → P s t)
        → ((a : A) (s : Scanner) (t : Token) → Q a s t → Q' a s t)
        → Triple R P' m Q'
    Triple-weaken {m} h before after = record {
      from_place = λ p at_p.
          Halts-weaken _ _ (m p) (h.from_place p (before _ _ at_p))
            (λ (a, q) (at_q, r). (after a _ _ at_q, r));
    }

    pub Triple-bind :
        {B : Type 0} {P : Place} {Q : A → Place} {S : B → Place} {m : Parse A} {f : A → Parse B}
        → Triple R P m Q
        → ((a : A) → Triple R (Q a) (f a) S)
        → Triple R P (m >>= f) S
    unfolding ◌>>=◌
    Triple-bind {m} {f} h k = record {
      from_place = λ p at_p. Halts-bind _ _ (m p) _ (h.from_place p at_p) (λ (a, q) (at_q, r).
          Halts-weaken _ _ (f a q) ((k a).from_place q at_q)
            (λ (b, q') (at_q', r'). (at_q', frame.then_ p q q' r r')));
    }

    pub Triple-if :
        {P : Place} {Q : A → Place} {m k : Parse A} (b : Bool)
        → Triple R P m Q
        → Triple R P k Q
        → Triple R P (if b then m else k) Q
    Triple-if true h h' = h
    Triple-if false h h' = h'

    pub Triple-branch :
        {P P' : Place} {Q : A → Place} {m k : Parse A} (b : Bool)
        → Triple R P m Q
        → Triple R P' k Q
        → Triple R (if b then P else P') (if b then m else k) Q
    Triple-branch true h h' = h
    Triple-branch false h h' = h'

    pub Triple-option :
        {B : Type 0} {P : Place} {Q : A → Place} (o : Option B) {m : Parse A} {f : B → Parse A}
        → Triple R P m Q
        → ((b : B) → Triple R P (f b) Q)
        → Triple R P (elim o [ none ↦ m | some b ↦ f b ]) Q
    Triple-option none h h' = h
    Triple-option (some b) h h' = h' b

    pub Triple-pointer :
        {P : Place} {Q : A → Place} (o : Pointer) {m : Parse A} {f : Node → Parse A}
        → Triple R P m Q
        → ((n : Node) → Triple R P (f n) Q)
        → Triple R P (elim o [ nil ↦ m | to n ↦ f n ]) Q
    Triple-pointer nil h h' = h
    Triple-pointer (to n) h h' = h' n

    pub Triple-fuel :
        {Q : A → Place} {n : ℕ} (m : ℕ → Parse A)
        → ((k : ℕ) → k ≤ n → Triple R (Standing k) (m (suc k)) Q)
        → Triple R (Standing n) (with_fuel m) Q
    unfolding with_fuel
    Triple-fuel {n} m h = record {
      from_place = λ p (text, line, column, e, less).
          let same : length text ≡ unread p.scanner = rw e (sym (unread-at text line column)) in
          (h (left p.scanner p.current_token) (omega (arith, same, less))).from_place p
            (text, line, column, e, omega (arith, same));
    }

    pub Triple-when :
        {P : Place} {Q : A → Place} {m k : Parse A} (test : TokenType → Bool)
        → Triple R P m Q
        → Triple R P k Q
        → Triple R P (when_token test m k) Q
    unfolding when_token
    Triple-when {m} {k} test h h' = record {
      from_place = λ p at_p. elim (Bool-cases (test p.current_token.type)) [
        | inl holds ↦ rw holds (h.from_place p at_p)
        | inr fails ↦ rw fails (h'.from_place p at_p)
      ];
    }

    -- At a token of a class without the end of the file something is left.
    pub Triple-live :
        {Q : A → Place} {m k : Parse A} {n : ℕ} (test : TokenType → Bool)
        → test token_eof ≡ false
        → ((n' : ℕ) → n ≡ suc n' → Triple R (Live n') m Q)
        → Triple R (Standing n) k Q
        → Triple R (Standing n) (when_token test m k) Q
    unfolding when_token
    Triple-live {n} test no_eof h h' = record {
      from_place = λ p (text, line, column, e, less).
          elim (Bool-cases (test p.current_token.type)) [
            | inl holds ↦ rw holds (elim (Bool-cases (same_token token_eof p.current_token.type)) [
              | inl is_eof ↦ absurd (cc (holds, no_eof, eof_lem p.current_token.type is_eof))
              | inr other ↦
                  let (n', e', short) =
                    some_left (same_token token_eof p.current_token.type) (length text) n other
                      less in
                  (h n' e').from_place p (text, line, column, e, short)
            ])
            | inr fails ↦ rw fails (h'.from_place p (text, line, column, e, less))
          ];
    }

  -- An action behind one that consumes something.
  pub Triple-then :
      {A B : Type 0} {Q : A → Place} {m : Parse B} {f : B → Parse A} {n : ℕ}
      → Triple R (Standing n) m (λ _. Before n)
      → ((b : B) (n' : ℕ) → n' < n → Triple R (Standing n') (f b) Q)
      → Triple R (Standing n) (m >>= f) Q
  Triple-then h k = Triple-bind h (λ b. record {
    from_place = λ p (text, line, column, e, less).
        (k b _ less).from_place p (text, line, column, e, omega arith);
  })

-- Where less than `bound` is left, the action ends and consumes something.
abbrev pub Consumes : {A : Type 0} → (Parser → Parser → Type 0) → (bound : ℕ) → Parse A → Type 0
Consumes R bound m = (n : ℕ) → n < bound → Triple R (Standing n) m (λ _. Before n)
