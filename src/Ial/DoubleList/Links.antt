-- ===== src/Ial/DoubleList/Links.antt =====
-- 2/IAL/1/c206.c: when a heap holds a doubly linked list of given addresses and values.
use vut_projects.Base.{
  ℕ, ◌+◌, ◌<◌, ◌≡◌, ◌≢◌, refl, true, false, Option, none, some, List, [], ◌∷◌, ◌++◌, length, arith,
  ◌==◌,
}
use vut_projects.Ial.DoubleList.{Pointer, Element, Heap, DoubleList, pointer_eq, write, modify}

module _ {V : Type 0} where
  -- The address of the first cell, and of the last, or the pointer where there is none.
  abbrev pub first_or : List (ℕ × V) → Pointer → Pointer
  first_or [] q = q
  first_or ((a, v) ∷ xs) q = some a

  abbrev pub last_or : Pointer → List (ℕ × V) → Pointer
  last_or p [] = p
  last_or p ((a, v) ∷ xs) = last_or (some a) xs

  -- The cells stand at their addresses, linked in both directions, between two pointers.
  abbrev pub Links : (ℕ → Option (Element V)) → Pointer → List (ℕ × V) → Pointer → Type 0
  Links cells p [] q = Unit
  Links cells p ((a, v) ∷ xs) q =
      (cells a ≡ some (record { value = v; previous_element = p; next_element = first_or xs q }))
      × Links cells (some a) xs q

  abbrev pub Absent : ℕ → List (ℕ × V) → Type 0
  Absent a [] = Unit
  Absent a ((b, v) ∷ xs) = (b ≢ a) × Absent a xs

  abbrev pub AreDistinct : List (ℕ × V) → Type 0
  AreDistinct [] = Unit
  AreDistinct ((a, v) ∷ xs) = Absent a xs × AreDistinct xs

  abbrev pub AreBelow : ℕ → List (ℕ × V) → Type 0
  AreBelow n [] = Unit
  AreBelow n ((a, v) ∷ xs) = (a < n) × AreBelow n xs

  -- The record describes the list of these cells. It says nothing of the active pointer.
  pub record IsList (list : DoubleList V) (xs : List (ℕ × V)) : Type 0 where
    pub linked : Links list.heap.cells none xs none
    pub distinct : AreDistinct xs
    pub below : AreBelow list.heap.fresh xs
    pub first : list.first_element ≡ first_or xs none
    pub last : list.last_element ≡ last_or none xs
    pub counted : list.current_length ≡ length xs

  pub write-same :
      (cells : ℕ → Option (Element V)) (a : ℕ) (e : Option (Element V)) → write cells a e a ≡ e
  write-same cells a e = let same : (a == a) ≡ true = ground arith in rw same refl

  pub write-other :
      (cells : ℕ → Option (Element V)) (a b : ℕ) (e : Option (Element V))
      → b ≢ a
      → write cells a e b ≡ cells b
  write-other cells a b e differ = let other : (b == a) ≡ false = ground arith in rw other refl

  pub modify-write :
      (h : Heap V) (a : ℕ) (e : Element V) (f : Element V → Element V)
      → h.cells a ≡ some e
      → modify h (some a) f ≡ some (record h { cells = write h.cells a (some (f e)) })
  modify-write h a e f found = rw found refl

  pub Links-write :
      (cells : ℕ → Option (Element V)) (a : ℕ) (e : Option (Element V)) (p : Pointer)
      (xs : List (ℕ × V)) (q : Pointer)
      → Absent a xs
      → Links cells p xs q
      → Links (write cells a e) p xs q
  Links-write cells a e p [] q absent l = tt
  Links-write cells a e p ((b, v) ∷ xs) q absent l =
      let other : (b == a) ≡ false = ground arith in
      (rw other l.0, Links-write cells a e (some b) xs q absent.1 l.1)

  pub AreBelow-Absent : (n : ℕ) (xs : List (ℕ × V)) → AreBelow n xs → Absent n xs
  AreBelow-Absent n [] below = tt
  AreBelow-Absent n ((a, v) ∷ xs) below =
      ((λ e. absurd (omega arith)), AreBelow-Absent n xs below.1)

  pub AreBelow-suc : (n : ℕ) (xs : List (ℕ × V)) → AreBelow n xs → AreBelow (n + 1) xs
  AreBelow-suc n [] below = tt
  AreBelow-suc n ((a, v) ∷ xs) below = (omega arith, AreBelow-suc n xs below.1)

  pub Links-append :
      (cells : ℕ → Option (Element V)) (p : Pointer) (xs ys : List (ℕ × V)) (q : Pointer)
      → Links cells p xs (first_or ys q)
      → Links cells (last_or p xs) ys q
      → Links cells p (xs ++ ys) q
  Links-append cells p [] ys q l k = k
  Links-append cells p ((a, v) ∷ []) ys q l k = (l.0, k)
  Links-append cells p ((a, v) ∷ x ∷ xs) ys q l k =
      (l.0, Links-append cells (some a) (x ∷ xs) ys q l.1 k)

  pub Links-split :
      (cells : ℕ → Option (Element V)) (p : Pointer) (xs ys : List (ℕ × V)) (q : Pointer)
      → Links cells p (xs ++ ys) q
      → Links cells p xs (first_or ys q) × Links cells (last_or p xs) ys q
  Links-split cells p [] ys q l = (tt, l)
  Links-split cells p ((a, v) ∷ []) ys q l = ((l.0, tt), l.1)
  Links-split cells p ((a, v) ∷ x ∷ xs) ys q l =
      let (front, back) = Links-split cells (some a) (x ∷ xs) ys q l.1 in ((l.0, front), back)

  -- The last pointer of a list is not an address that the list does not have.
  pub last_or-Absent :
      (a b : ℕ) (xs : List (ℕ × V))
      → a ≢ b
      → Absent b xs
      → pointer_eq (some b) (last_or (some a) xs) ≡ false
  last_or-Absent a b [] differ absent = ground arith
  last_or-Absent a b ((c, v) ∷ xs) differ absent = last_or-Absent c b xs absent.0 absent.1
