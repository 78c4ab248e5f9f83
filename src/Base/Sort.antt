-- ===== src/Base/Sort.antt =====
-- `slice::sort_by_key` and `slice::sort`: a stable insertion sort by a test for "after".
use mathlib.Core.Path.{◌≡◌}
use mathlib.Core.Logic.{inl, inr}
use mathlib.Core.Bool.{Bool, true, false}
use mathlib.Core.List.{List, [], ◌∷◌, Perm}
use mathlib.Core.List.Perm
use disks_rs.Base.Tests.{Bool-cases, if◌then◌else◌}
use disks_rs.Base.Lists.{All, All-map, Pairwise}

module _ {ℓ} {A : Type ℓ} (after : A → A → Bool) where
  -- An element goes behind those that it is after of, and in front of its equals.
  abbrev pub insert : A → List A → List A
  insert x [] = x ∷ []
  insert x (y ∷ ys) = let rest = insert x ys in if after x y then y ∷ rest else x ∷ y ∷ ys

  -- The elements are inserted from the last one on, so that equal ones keep their order.
  unfoldable pub sort_by : List A → List A
  sort_by [] = []
  sort_by (x ∷ xs) = insert x (sort_by xs)

  insert-perm : (x : A) (l : List A) → Perm (insert x l) (x ∷ l)
  insert-perm x [] = Perm.rfl
  insert-perm x (y ∷ ys) = elim (Bool-cases (after x y)) [
    | inl e ↦ rw (e, insert) (Perm.trans (Perm.cons y (insert-perm x ys)) (Perm.swap x y ys))
    | inr e ↦ rw (e, insert) Perm.rfl
  ]

  pub sort_by-perm : (l : List A) → Perm (sort_by l) l
  unfolding sort_by
  sort_by-perm [] = Perm.rfl
  sort_by-perm (x ∷ xs) = Perm.trans (insert-perm x (sort_by xs)) (Perm.cons x (sort_by-perm xs))

  pub All-insert {κ} : (P : A → Type κ) (x : A) (l : List A) → P x → All P l → All P (insert x l)
  All-insert P x [] p h = (p, tt)
  All-insert P x (y ∷ ys) p h = elim (Bool-cases (after x y)) [
    | inl e ↦ rw (e, insert) (h.0, All-insert P x ys p h.1)
    | inr e ↦ rw (e, insert) (p, h)
  ]

  pub All-sort_by {κ} : (P : A → Type κ) (l : List A) → All P l → All P (sort_by l)
  unfolding sort_by
  All-sort_by P [] h = tt
  All-sort_by P (x ∷ xs) h = All-insert P x (sort_by xs) h.0 (All-sort_by P xs h.1)

-- In a total order that the test decides, the result ascends.
module _ {ℓ} {A : Type ℓ} (after : A → A → Bool) (R : A → A → Type 0) where
  pub insert-IsSorted :
      ((x y : A) → after x y ≡ true → R y x)
      → ((x y : A) → after x y ≡ false → R x y)
      → ((x y z : A) → R x y → R y z → R x z)
      → (x : A) (l : List A) → Pairwise R l
      → Pairwise R (insert after x l)
  insert-IsSorted above below trans x [] s = (tt, tt)
  insert-IsSorted above below trans x (y ∷ ys) s = elim (Bool-cases (after x y)) [
    | inl e ↦
        rw (e, insert)
          (
            All-insert after (R y) x ys (above x y e) s.0,
            insert-IsSorted above below trans x ys s.1,
          )
    | inr e ↦
        rw (e, insert)
          ((below x y e, All-map (R y) (R x) ys (λ z. trans x y z (below x y e)) s.0), s)
  ]

  pub sort_by-IsSorted :
      ((x y : A) → after x y ≡ true → R y x)
      → ((x y : A) → after x y ≡ false → R x y)
      → ((x y z : A) → R x y → R y z → R x z)
      → (l : List A) → Pairwise R (sort_by after l)
  unfolding sort_by
  sort_by-IsSorted above below trans [] = tt
  sort_by-IsSorted above below trans (x ∷ xs) =
      insert-IsSorted above below trans x (sort_by after xs) (sort_by-IsSorted above below trans xs)
