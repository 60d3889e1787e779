-- ===== src/Ifj/Parser/Logic/Actions.antt =====
-- 2/IFJ/parser.c: the rules for the actions that read a token, allocate, or use the symbol table or the
-- scopes.
use vut_projects.Base.{
  ℕ, suc, ◌+◌, ◌≤◌, ◌<◌, ◌≡◌, refl, sym, false, some, List, [], ◌∷◌, leb, arith, ◌⊎◌, inl, inr,
  if◌then◌else◌, length, Text, Bool-cases,
}
use vut_projects.Ifj.Run.{
  ok, err_lexical, err_syntax, Halts, Halts-bind, Halts-same, Halts-Ensures, Halts-ok, Halts-exit,
  err_internal,
}
use vut_projects.Ifj.Symtable.Ends.{search-Halts, insert-Halts}
use vut_projects.Ifj.Symtable.{Symbol, symtable_search, symtable_insert}
use vut_projects.Ifj.Scanner.{Scanner, TokenType, token_eof}
use vut_projects.Ifj.Scanner.Next.{get_next_token}
use vut_projects.Ifj.Scanner.Position.{at}
use vut_projects.Ifj.Scanner.Progress.{Progresses, next_token-Progresses}
use vut_projects.Ifj.Parser.{
  Parser, Parse, pure, ◌>>=◌, lexeme, same_token, max_scope_depth, get_token, expect_token,
  safe_malloc, search, insert,
}
use vut_projects.Ifj.Parser.Scopes.{enter_scope, exit_scope, in_scope}
use vut_projects.Ifj.Parser.Logic.{
  Place, Standing, Live, IsFrame, Triple, Triple-bind, Triple-live, Triple-weaken, Triple-exit,
}

left_behind :
    (t : TokenType) (rest : Text) (k n : ℕ)
    → ((t ≡ token_eof) × (rest ≡ [])) ⊎ (length rest < k)
    → k ≤ n
    → length rest + (if same_token token_eof t then 0 else 1) ≤ n
left_behind t rest k n (inl (e, e')) less = rw (e, e') (omega arith)
left_behind t rest k n (inr short) less = elim (Bool-cases (same_token token_eof t)) [
  | inl holds ↦ rw holds (omega arith)
  | inr fails ↦ rw fails (omega arith)
]

next :
    (s : Scanner) (text : Text) (line column : ℕ)
    → s ≡ at text line column
    → Halts (get_next_token s) (Progresses text)
next s text line column e =
    rw e (Halts-Ensures err_lexical _ _ (next_token-Progresses text line column))

enter-Halts :
    (P : Place) (p : Parser)
    → P p.scanner p.current_token
    → Halts
        (enter_scope p)
        (λ (_, p'). (enter_scope p ≡ ok (tt, p')) × P p'.scanner p'.current_token)
unfolding enter_scope
enter-Halts P p at_p = elim (Bool-cases (leb max_scope_depth (length p.scope_stack))) [
  | inl full ↦ rw full (Halts-exit _ err_internal)
  | inr spare ↦ rw spare (Halts-ok _ _ (refl, at_p))
]

exit-Halts :
    (P : Place) (p : Parser)
    → P p.scanner p.current_token
    → Halts (exit_scope p) (λ (_, p'). (exit_scope p ≡ ok (tt, p')) × P p'.scanner p'.current_token)
unfolding exit_scope Halts
exit-Halts P p at_p = by_stack p.scope_stack refl
  where
    by_stack :
        (stack : List ℕ)
        → stack ≡ p.scope_stack
        → Halts
            (exit_scope p)
            (λ (_, p'). (exit_scope p ≡ ok (tt, p')) × P p'.scanner p'.current_token)
    by_stack [] e = rw (sym e) tt
    by_stack (id ∷ stack) e = rw (sym e) (refl, at_p)

module _ {R : Parser → Parser → Type 0} (frame : IsFrame R) where
  pub Triple-get : {n : ℕ} → Triple R (Live n) get_token (λ _. Standing n)
  unfolding get_token Halts
  Triple-get {n} = record {
    from_place = λ p (text, line, column, e, less).
        Halts-bind _ _ (get_next_token p.scanner) _ (next p.scanner text line column e)
          (λ (token, s) (rest, l, k, e', short). (
            (rest, l, k, e', left_behind token.type rest (length text) n short (less)),
            frame.reads p s token,
          ));
  }

  -- `expect_token` and what comes behind it.
  pub Triple-expect :
      {A : Type 0} {Q : A → Place} {f : Unit {0} → Parse A} {n : ℕ} (type : TokenType)
      → same_token type token_eof ≡ false
      → ((n' : ℕ) → n ≡ suc n' → (u : Unit {0}) → Triple R (Standing n') (f u) Q)
      → Triple R (Standing n) (expect_token type >>= f) Q
  unfolding expect_token
  Triple-expect {Q} {n} type no_eof h =
      Triple-bind frame {Q = λ u s t. (n' : ℕ) × (n ≡ suc n') × Standing n' s t}
        (Triple-live frame (same_token type) no_eof
          (λ n' e. Triple-weaken frame Triple-get (λ s t at_p. at_p) (λ u s t at_p. (n', e, at_p)))
          (Triple-exit frame err_syntax))
        (λ u. record { from_place = λ p (n', e, at_p). (h n' e u).from_place p at_p })

  pub Triple-get_any : {n : ℕ} → Triple R (Standing n) get_token (λ _. Standing n)
  unfolding get_token Halts
  Triple-get_any {n} = record {
    from_place = λ p (text, line, column, e, less).
        Halts-bind _ _ (get_next_token p.scanner) _ (next p.scanner text line column e)
          (λ (token, s) (rest, l, k, e', short). (
            (
              rest,
              l,
              k,
              e',
              left_behind token.type rest (length text) n short (omega (arith, less)),
            ),
            frame.reads p s token,
          ));
  }

  pub Triple-lexeme : {P : Place} → Triple R P lexeme (λ _. P)
  unfolding Halts lexeme
  Triple-lexeme = record { from_place = λ p at_p. (at_p, frame.same p) }

  pub Triple-malloc : {P : Place} → Triple R P safe_malloc (λ _. P)
  unfolding Halts safe_malloc
  Triple-malloc = record { from_place = λ p at_p. (at_p, frame.allocates p) }

  pub Triple-search : {P : Place} (key : Text) → Triple R P (search key) (λ _. P)
  unfolding search Halts
  Triple-search key = record {
    from_place = λ p at_p.
        Halts-bind _ _ (symtable_search p.symtable (some key)) _
          (Halts-same _ (search-Halts p.symtable key))
          (λ (found, st) e. (at_p, frame.searches p key found st e));
  }

  pub Triple-insert :
      {P : Place} (key : Text) (symbol : Symbol)
      → symbol.name ≡ some key
      → Triple R P (insert key symbol) (λ _. P)
  unfolding Halts insert
  Triple-insert key symbol named = record {
    from_place = λ p at_p.
        Halts-bind _ _ (symtable_insert p.symtable (some key) (some symbol)) _
          (Halts-same _ (insert-Halts p.symtable key symbol))
          (λ (fresh, st) e. (at_p, frame.inserts p key symbol fresh st named e));
  }

  pub Triple-in_scope :
      {A : Type 0} {P : Place} {Q : A → Place} {m : Parse A}
      → Triple R P m Q
      → Triple R P (in_scope m) Q
  unfolding in_scope ◌>>=◌ pure
  Triple-in_scope {P} {Q} {m} h = record {
    from_place = λ p at_p.
        Halts-bind _ _ (enter_scope p) _ (enter-Halts P p at_p) (λ (_, p') (enters, at_p').
          Halts-bind _ _ (m p') _ (h.from_place p' at_p') (λ (a, q) (at_q, r).
            Halts-bind _ _ (exit_scope q) _ (exit-Halts (Q a) q at_q) (λ (_, q') (exits, at_q').
              Halts-ok _ _ (at_q', frame.encloses p p' q q' enters r exits))));
  }
