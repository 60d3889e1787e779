-- ===== src/Chained/Empty.antt =====
-- An array of empty chains.
use vut_projects.Base.{ℕ, zero, suc, ◌≡◌, refl, none, [], Bool, Text, replicate, get_or-replicate}
use vut_projects.Chained.Chain.{find}
use vut_projects.Chained.Buckets.{flatten, view, PlacedFrom, AllDistinct, IsPlaced}

module _ {A : Type 0} (holds : Text → A → Bool) (slot : Text → ℕ) where
  placed-replicate : (n i : ℕ) → PlacedFrom holds slot i (replicate n [])
  unfolding find
  placed-replicate zero i = tt
  placed-replicate (suc n) i = ((λ k. cc), placed-replicate n (suc i))

  distinct-replicate : (n : ℕ) → AllDistinct holds slot (replicate n [])
  distinct-replicate zero = tt
  distinct-replicate (suc n) = (tt, distinct-replicate n)

  pub replicate-IsPlaced : (n : ℕ) → IsPlaced holds slot (replicate n [])
  replicate-IsPlaced n = record { placed = placed-replicate n 0; distinct = distinct-replicate n }

  pub view-replicate : (n : ℕ) (k : Text) → view holds slot (replicate n []) k ≡ none
  unfolding view find
  view-replicate n k = rw get_or-replicate

pub flatten-replicate : {A : Type 0} (n : ℕ) → flatten {A = A} (replicate n []) ≡ []
flatten-replicate zero = refl
flatten-replicate (suc n) = flatten-replicate n
