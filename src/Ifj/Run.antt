-- ===== src/Ifj/Run.antt =====
-- 2/IFJ/error.h, 2/IFJ/error.c: how a step of the compiler ends. `error_exit` ends the process with
-- its code, so nothing after it runs.
use mathlib.Core.Path.{◌≡◌, refl}
use Prim.Native.Nat.{ℕ}
use mathlib.Core.Bool.{Bool, true, false}
use vut_projects.Base.{if◌then◌else◌, Option, none, some}

pub data Run {ℓ} (A : Type ℓ) : Type ℓ where
  ok : A → Run A
  -- `error_exit` with this code
  exit : ℕ → Run A
  -- a null pointer followed, or a division by zero
  crash : Run A
  -- a loop of the model out of fuel
  out_of_fuel : Run A

infixl 5 ◌>>=◌ ◌>>◌
abbrev pub ◌>>=◌ {ℓ κ} : {A : Type ℓ} {B : Type κ} → Run A → (A → Run B) → Run B
ok a >>= f = f a
exit code >>= f = exit code
crash >>= f = crash
out_of_fuel >>= f = out_of_fuel

abbrev pub ◌>>◌ {ℓ} : {A B : Type ℓ} → Run A → Run B → Run B
m >> k = m >>= λ _. k

abbrev pub err_lexical : ℕ
err_lexical = 1

abbrev pub err_syntax : ℕ
err_syntax = 2

abbrev pub err_semantic_undef : ℕ
err_semantic_undef = 3

abbrev pub err_semantic_params : ℕ
err_semantic_params = 4

abbrev pub err_semantic_other : ℕ
err_semantic_other = 5

abbrev pub err_semantic_return : ℕ
err_semantic_return = 6

abbrev pub err_semantic_type : ℕ
err_semantic_type = 7

abbrev pub err_semantic_infer : ℕ
err_semantic_infer = 8

abbrev pub err_semantic_unused : ℕ
err_semantic_unused = 9

abbrev pub err_semantic : ℕ
err_semantic = 10

abbrev pub err_internal : ℕ
err_internal = 99

-- The run returns a result with the property, or ends with this code. It neither crashes nor runs
-- out of fuel.
unfoldable pub Ensures {ℓ} : {A : Type ℓ} → Run A → (code : ℕ) → (A → Type 0) → Type 0
Ensures (ok a) code P = P a
Ensures (exit code') code P = code' ≡ code
Ensures crash code P = ⊥
Ensures out_of_fuel code P = ⊥

pub Ensures-bind {ℓ κ} :
    {A : Type ℓ} {B : Type κ} (code : ℕ) (P : A → Type 0) (Q : B → Type 0) (m : Run A)
    (f : A → Run B)
    → Ensures m code P
    → ((a : A) → P a → Ensures (f a) code Q)
    → Ensures (m >>= f) code Q
unfolding Ensures
Ensures-bind code P Q (ok a) f h k = k a h
Ensures-bind code P Q (exit c) f h k = h
Ensures-bind code P Q crash f h k = absurd h
Ensures-bind code P Q out_of_fuel f h k = absurd h

pub Ensures-weaken {ℓ} :
    {A : Type ℓ} (code : ℕ) (P Q : A → Type 0) (m : Run A)
    → Ensures m code P
    → ((a : A) → P a → Q a)
    → Ensures m code Q
unfolding Ensures
Ensures-weaken code P Q (ok a) h k = k a h
Ensures-weaken code P Q (exit c) h k = h
Ensures-weaken code P Q crash h k = absurd h
Ensures-weaken code P Q out_of_fuel h k = absurd h

pub Ensures-if {ℓ} :
    {A : Type ℓ} (code : ℕ) (P : A → Type 0) (b : Bool) (m k : Run A)
    → Ensures m code P
    → Ensures k code P
    → Ensures (if b then m else k) code P
unfolding Ensures
Ensures-if code P true m k h h' = h
Ensures-if code P false m k h h' = h'

pub Ensures-ok {ℓ} : {A : Type ℓ} (code : ℕ) (P : A → Type 0) (a : A) → P a → Ensures (ok a) code P
unfolding Ensures
Ensures-ok code P a h = h

pub Ensures-exit {ℓ} : {A : Type ℓ} (code : ℕ) (P : A → Type 0) → Ensures (exit code) code P
unfolding Ensures
Ensures-exit code P = refl

pub Ensures-cases {ℓ} :
    {A : Type ℓ} (code : ℕ) (P : A → Type 0) (b : Bool) (m k : Run A)
    → (b ≡ true → Ensures m code P)
    → (b ≡ false → Ensures k code P)
    → Ensures (if b then m else k) code P
unfolding Ensures
Ensures-cases code P true m k h h' = h refl
Ensures-cases code P false m k h h' = h' refl

-- The run returns a result with the property.
abbrev pub Returns {ℓ} : {A : Type ℓ} → Run A → (A → Type 0) → Type ℓ
Returns {A = A} m P = (a : A) × (m ≡ ok a) × P a

pub Returns-bind {ℓ κ} :
    {A : Type ℓ} {B : Type κ} (P : A → Type 0) (Q : B → Type 0) (m : Run A) (f : A → Run B)
    → Returns m P
    → ((a : A) → P a → Returns (f a) Q)
    → Returns (m >>= f) Q
Returns-bind P Q m f (a, e, h) k = rw e (k a h)

pub Returns-Ensures {ℓ} :
    {A : Type ℓ} (code : ℕ) (P : A → Type 0) (m : Run A) → Returns m P → Ensures m code P
unfolding Ensures
Returns-Ensures code P m (a, e, h) = rw e h

-- The run does not run out of fuel, and a result has the property.
unfoldable pub Halts : {A : Type 0} → Run A → (A → Type 0) → Type 0
Halts (ok a) P = P a
Halts (exit code) P = Unit
Halts crash P = Unit
Halts out_of_fuel P = ⊥

pub Halts-bind :
    {A B : Type 0} (P : A → Type 0) (Q : B → Type 0) (m : Run A) (f : A → Run B)
    → Halts m P
    → ((a : A) → P a → Halts (f a) Q)
    → Halts (m >>= f) Q
unfolding Halts
Halts-bind P Q (ok a) f h k = k a h
Halts-bind P Q (exit code) f h k = tt
Halts-bind P Q crash f h k = tt
Halts-bind P Q out_of_fuel f h k = absurd h

pub Halts-weaken :
    {A : Type 0} (P Q : A → Type 0) (m : Run A) → Halts m P → ((a : A) → P a → Q a) → Halts m Q
unfolding Halts
Halts-weaken P Q (ok a) h k = k a h
Halts-weaken P Q (exit code) h k = tt
Halts-weaken P Q crash h k = tt
Halts-weaken P Q out_of_fuel h k = absurd h

pub Halts-same : {A : Type 0} (m : Run A) → Halts m (λ _. Unit) → Halts m (λ a. m ≡ ok a)
unfolding Halts
Halts-same (ok a) h = refl
Halts-same (exit code) h = tt
Halts-same crash h = tt
Halts-same out_of_fuel h = absurd h

pub Halts-Ensures :
    {A : Type 0} (code : ℕ) (P : A → Type 0) (m : Run A) → Ensures m code P → Halts m P
unfolding Halts Ensures
Halts-Ensures code P (ok a) h = h
Halts-Ensures code P (exit c) h = tt
Halts-Ensures code P crash h = tt
Halts-Ensures code P out_of_fuel h = absurd h

pub Halts-ok : {A : Type 0} (P : A → Type 0) (a : A) → P a → Halts (ok a) P
unfolding Halts
Halts-ok P a h = h

pub Halts-exit : {A : Type 0} (P : A → Type 0) (code : ℕ) → Halts (exit code) P
unfolding Halts
Halts-exit P code = tt

pub Halts-if :
    {A : Type 0} (P : A → Type 0) (b : Bool) (m k : Run A)
    → Halts m P
    → Halts k P
    → Halts (if b then m else k) P
Halts-if P true m k h h' = h
Halts-if P false m k h h' = h'

pub Halts-option :
    {A B : Type 0} (P : A → Type 0) (o : Option B) (m : Run A) (f : B → Run A)
    → Halts m P
    → ((b : B) → Halts (f b) P)
    → Halts (elim o [ none ↦ m | some b ↦ f b ]) P
Halts-option P none m f h h' = h
Halts-option P (some b) m f h h' = h' b

pub Halts-crash : {A : Type 0} (P : A → Type 0) → Halts crash P
unfolding Halts
Halts-crash P = tt

-- A run of two steps that returns something has returned something after the first.
pub ok-bind :
    {A B : Type 0} (m : Run A) (f : A → Run B) (b : B)
    → (m >>= f) ≡ ok b
    → (a : A) × (m ≡ ok a) × (f a ≡ ok b)
ok-bind (ok a) f b h = (a, refl, h)
ok-bind (exit code) f b h = cc
ok-bind crash f b h = cc
ok-bind out_of_fuel f b h = cc
