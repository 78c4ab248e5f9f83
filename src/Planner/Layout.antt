-- ===== src/Planner/Layout.antt =====
-- How a layout grows and shrinks with one more change.
use disks_rs.Base.{
  ℕ, zero, suc, ◌-◌, ◌≤◌, ◌≡◌, refl, inl, inr, Option, some, List, [], ◌∷◌, ◌++◌, arith, All,
  All-map, subst, leb, ltb, ltb→lt, ltb→ge, Bool-cases, Option-cases, some-inj, leb→le, leb→gt,
}
use disks_rs.Planner.{Region, remove?, remove_all, insert_descending, sort_descending}

abbrev pub IsDescending : List ℕ → Type 0
IsDescending [] = Unit
IsDescending (i ∷ is) = All (λ j. j ≤ i) is × IsDescending is

All-insert_descending :
    (b i : ℕ) (is : List ℕ)
    → i ≤ b
    → All (λ j. j ≤ b) is
    → All (λ j. j ≤ b) (insert_descending i is)
All-insert_descending b i [] h k = (h, tt)
All-insert_descending b i (j ∷ is) h k = elim (Bool-cases (leb j i)) [
  | inl le ↦ rw le (h, k)
  | inr gt ↦ rw gt (k.0, All-insert_descending b i is h k.1)
]

insert-IsDescending :
    (i : ℕ) (is : List ℕ) → IsDescending is → IsDescending (insert_descending i is)
insert-IsDescending i [] h = (tt, tt)
insert-IsDescending i (j ∷ is) h = elim (Bool-cases (leb j i)) [
  | inl le ↦ rw le (
    (
      leb→le j i le,
      All-map (λ k. k ≤ j) (λ k. k ≤ i) is (λ k kj. omega (arith, leb→le j i le)) h.0,
    ),
    h,
  )
  | inr gt ↦ rw gt (
    All-insert_descending j i is (omega (arith, leb→gt j i gt)) h.0,
    insert-IsDescending i is h.1,
  )
]

pub sort-IsDescending : (s is : List ℕ) → IsDescending s → IsDescending (sort_descending s is)
unfolding sort_descending
sort-IsDescending s [] h = h
sort-IsDescending s (i ∷ is) h =
    sort-IsDescending (insert_descending i s) is (insert-IsDescending i s h)

-- The last index to be sorted is inserted last.
pub sort-append :
    (s is : List ℕ) (i : ℕ)
    → sort_descending s (is ++ i ∷ []) ≡ insert_descending i (sort_descending s is)
unfolding sort_descending
sort-append s [] i = refl
sort-append s (j ∷ is) i = sort-append (insert_descending j s) is i

module _ {A : Type 0} where
  -- Two removals commute, with the index moved over.
  remove?-remove? :
      (l : List (Region A)) {l₁ l₂ : List (Region A)} (i j : ℕ)
      → j ≤ i
      → remove? l (suc i) ≡ some l₁
      → remove? l₁ j ≡ some l₂
      → (m : List (Region A)) × (remove? l j ≡ some m) × (remove? m i ≡ some l₂)
  remove?-remove? [] i j h p q = cc
  remove?-remove? (r ∷ rs) i zero h p q = (rs, refl, ground arith)
  remove?-remove? (r ∷ rs) zero (suc j) h p q = absurd (omega arith)
  remove?-remove? (r ∷ rs) {l₁} {l₂} (suc i) (suc j) h p q =
      elim (Option-cases (remove? rs (suc i))) [
        | inl e ↦ ground arith
        | inr (l', e) ↦ elim (Option-cases (remove? l' j)) [
          | inl f ↦ ground arith
          | inr (l'', f) ↦
              let (m, a, b) = remove?-remove? rs i j (omega arith) e f in
              (r ∷ m, rw a, ground arith)
        ]
      ]

  pub All-remove? :
      (P : Region A → Type 0) (l : List (Region A)) {m : List (Region A)} (i : ℕ)
      → remove? l i ≡ some m
      → All P l
      → All P m
  All-remove? P [] i e h = cc
  All-remove? P (r ∷ rs) zero e h = rw (← some-inj e) h.1
  All-remove? P (r ∷ rs) (suc i) e h = elim (Option-cases (remove? rs i)) [
    | inl f ↦ ground arith
    | inr (l', f) ↦
        let g : r ∷ l' ≡ _ = some-inj (rw f at e) in rw (← g) (h.0, All-remove? P rs i f h.1)
  ]

  pub remove_all-cons :
      (i : ℕ) (is : List ℕ) (l : List (Region A)) {k : List (Region A)}
      → remove_all (i ∷ is) l ≡ some k
      → (m : List (Region A)) × (remove? l i ≡ some m) × (remove_all is m ≡ some k)
  remove_all-cons i is l h = elim (Option-cases (remove? l i)) [
    | inl e ↦ ground arith
    | inr (m, e) ↦ (m, e, rw (e, remove_all) at h)
  ]

  cons-remove_all :
      (i : ℕ) (is : List ℕ) (l : List (Region A)) {m : List (Region A)}
      {o : Option (List (Region A))}
      → remove? l i ≡ some m
      → remove_all is m ≡ o
      → remove_all (i ∷ is) l ≡ o
  cons-remove_all i is l e f = rw (e, remove_all) f

  -- What holds of every region that `is` leaves holds of all of `k`.
  abbrev pub Narrows : List ℕ → List (Region A) → List (Region A) → Type 1
  Narrows is l k =
      (m : List (Region A)) × (remove_all is l ≡ some m)
      × ((P : Region A → Type 0) → All P m → All P k)

  -- A removal before those of lower indices leaves less than they leave alone.
  remove_first-Narrows :
      (is : List ℕ) (i : ℕ) (l : List (Region A)) {l₁ k : List (Region A)}
      → IsDescending is
      → All (λ j. j ≤ i) is
      → remove? l i ≡ some l₁
      → remove_all is l₁ ≡ some k
      → Narrows is l k
  remove_first-Narrows [] i l d b e f = (l, refl, λ P h. rw (← some-inj f) (All-remove? P l i e h))
  remove_first-Narrows (j ∷ is) i l {l₁} {k} d b e f =
      let (l₂, e₂, f₂) = remove_all-cons j is l₁ f in
      elim (Bool-cases (ltb j i)) [
        | inl lt ↦
            let i' : i ≡ suc (i - 1) = omega (arith, ltb→lt j i lt) in
            let (m, a, c) =
              remove?-remove? l (i - 1) j (omega (arith, ltb→lt j i lt))
                (subst (λ x. remove? l x ≡ some l₁) i' e) e₂ in
            let below : All (λ x. x ≤ i - 1) is =
              All-map (λ x. x ≤ j) (λ x. x ≤ i - 1) is (λ x h. omega (arith, ltb→lt j i lt)) d.0 in
            let (k', g, n) = remove_first-Narrows is (i - 1) m d.1 below c f₂ in
            (k', cons-remove_all j is l a g, n)
        | inr ge ↦
            let same : i ≡ j = omega (arith, ltb→ge j i ge, b.0) in
            let (k', g, n) = remove_first-Narrows is j l₁ d.1 d.0 e₂ f₂ in
            (k', cons-remove_all j is l (subst (λ x. remove? l x ≡ some l₁) same e) g, n)
      ]

  -- One more index, wherever the order puts it, leaves less.
  pub insert-Narrows :
      (is : List ℕ) (i : ℕ) (l : List (Region A)) {k : List (Region A)}
      → IsDescending is
      → remove_all (insert_descending i is) l ≡ some k
      → Narrows is l k
  insert-Narrows [] i l d f =
      let (m, e, g) = remove_all-cons i [] l f in remove_first-Narrows [] i l tt tt e g
  insert-Narrows (j ∷ is) i l d f = elim (Bool-cases (leb j i)) [
    | inl le ↦
        let (m, e, g) = remove_all-cons i (j ∷ is) l (rw le at f) in
        remove_first-Narrows (j ∷ is) i l d
          (
            leb→le j i le,
            All-map (λ x. x ≤ j) (λ x. x ≤ i) is (λ x h. omega (arith, leb→le j i le)) d.0,
          )
          e g
    | inr gt ↦
        let (m, e, g) = remove_all-cons j (insert_descending i is) l (rw gt at f) in
        let (k', h, n) = insert-Narrows is i m d.1 g in (k', cons-remove_all j is l e h, n)
  ]
