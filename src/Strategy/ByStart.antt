-- ===== src/Strategy/ByStart.antt =====
-- Sorting the layout by its starts leaves the same regions, one behind the other:
-- crates/partitioning/src/strategy.rs, `find_free_regions`.
use disks_rs.Base.{
  ℕ, ◌≤◌, ◌<◌, ◌⊎◌, inl, inr, List, [], ◌∷◌, arith, All, All-map, Any, Pairwise, ltb, ltb→lt,
  ltb→ge, Bool-cases,
}
use disks_rs.Planner.{Region}
use disks_rs.Planner.Adding.{Apart}
use disks_rs.Planner.History.{IsDisjoint}
use disks_rs.Strategy.{insert_by_start, sort_by_start}

module _ {A : Type 0} where
  -- A region with a position in it, between two bounds.
  pub record Inside (lower upper : ℕ) (r : Region A) : Type 0 where
    pub from : lower ≤ r.start
    pub nonempty : r.start < r.end
    pub upto : r.end ≤ upper

  abbrev pub Holds : ℕ → Region A → Type 0
  Holds x r = (r.start ≤ x) × (x < r.end)

  abbrev pub Before : Region A → Region A → Type 0
  Before r s = r.end ≤ s.start

  All-insert :
      (P : Region A → Type 0) (r : Region A) (l : List (Region A))
      → P r
      → All P l
      → All P (insert_by_start r l)
  All-insert P r [] h k = (h, tt)
  All-insert P r (s ∷ l) h k = elim (Bool-cases (ltb r.start s.start)) [
    | inl lt ↦ rw lt (h, k)
    | inr ge ↦ rw ge (k.0, All-insert P r l h k.1)
  ]

  insert-All :
      (P : Region A → Type 0) (r : Region A) (l : List (Region A))
      → All P (insert_by_start r l)
      → P r × All P l
  insert-All P r [] h = h
  insert-All P r (s ∷ l) h = elim (Bool-cases (ltb r.start s.start)) [
    | inl lt ↦ rw lt at h
    | inr ge ↦ let k = insert-All P r l (rw ge at h).1 in (k.0, ((rw ge at h).0, k.1))
  ]

  insert-Any :
      (P : Region A → Type 0) (r : Region A) (l : List (Region A))
      → Any P (insert_by_start r l)
      → P r ⊎ Any P l
  insert-Any P r [] h = h
  insert-Any P r (s ∷ l) h = elim (Bool-cases (ltb r.start s.start)) [
    | inl lt ↦ rw lt at h
    | inr ge ↦ elim (rw ge at h) as (λ _. P r ⊎ P s ⊎ Any P l) [
      | inl here ↦ inr (inl here)
      | inr later ↦ elim (insert-Any P r l later) as (λ _. P r ⊎ P s ⊎ Any P l) [
        | inl new ↦ inl new
        | inr old ↦ inr (inr old)
      ]
    ]
  ]

  pub All-sort :
      (P : Region A → Type 0) (acc l : List (Region A))
      → All P acc
      → All P l
      → All P (sort_by_start acc l)
  unfolding sort_by_start
  All-sort P acc [] h k = h
  All-sort P acc (r ∷ l) h k = All-sort P (insert_by_start r acc) l (All-insert P r acc k.0 h) k.1

  pub sort-All :
      (P : Region A → Type 0) (acc l : List (Region A))
      → All P (sort_by_start acc l)
      → All P acc × All P l
  unfolding sort_by_start
  sort-All P acc [] h = (h, tt)
  sort-All P acc (r ∷ l) h =
      let (a, b) = sort-All P (insert_by_start r acc) l h in
      let (c, d) = insert-All P r acc a in (d, (c, b))

  pub sort-Any :
      (P : Region A → Type 0) (acc l : List (Region A))
      → Any P (sort_by_start acc l)
      → Any P acc ⊎ Any P l
  unfolding sort_by_start
  sort-Any P acc [] h = inl h
  sort-Any P acc (r ∷ l) h = elim (sort-Any P (insert_by_start r acc) l h) [
    | inr later ↦ inr (inr later)
    | inl sorted ↦ elim (insert-Any P r acc sorted) [ inl new ↦ inr (inl new) | inr old ↦ inl old ]
  ]

  module _ (lower upper : ℕ) where
    -- What is apart from `r` and starts behind it lies behind it.
    after_start :
        (r : Region A) (l : List (Region A)) (bound : ℕ)
        → r.start < bound
        → All (λ t. bound ≤ t.start) l
        → All (Inside lower upper) l
        → All (Apart r) l
        → All (Before r) l
    after_start r [] b h k i a = tt
    after_start r (t ∷ l) b h k i a = (omega arith, after_start r l b h k.1 i.1 a.1)

    insert-Before :
        (r : Region A) (l : List (Region A))
        → Inside lower upper r
        → All (Inside lower upper) l
        → All (Apart r) l
        → Pairwise Before l
        → Pairwise Before (insert_by_start r l)
    insert-Before r [] i is a s = (tt, tt)
    insert-Before r (t ∷ l) i is a s = elim (Bool-cases (ltb r.start t.start)) [
      | inl lt ↦
          let starts : All (λ u. t.start ≤ u.start) l =
            All-map (Before t) (λ u. t.start ≤ u.start) l (λ u b. omega (arith, is.0.nonempty))
              s.0 in
          rw lt (after_start r (t ∷ l) t.start (ltb→lt _ _ lt) (omega arith, starts) is a, s)
      | inr ge ↦ rw ge (
        All-insert (Before t) r l (omega (arith, ltb→ge _ _ ge)) s.0,
        insert-Before r l i is.1 a.1 s.1,
      )
    ]

    Apart-flip :
        (r : Region A) (acc l : List (Region A))
        → All (λ x. All (Apart x) (r ∷ l)) acc
        → All (Apart r) acc
    Apart-flip r acc l h =
        All-map (λ x. All (Apart x) (r ∷ l)) (Apart r) acc
          (λ x k. elim k.0 [ inl a ↦ inr a | inr b ↦ inl b ]) h

    pub sort-Before :
        (acc l : List (Region A))
        → Pairwise Before acc
        → All (Inside lower upper) acc
        → All (Inside lower upper) l
        → All (λ x. All (Apart x) l) acc
        → IsDisjoint l
        → Pairwise Before (sort_by_start acc l)
    unfolding sort_by_start
    sort-Before acc [] b i j a d = b
    sort-Before acc (r ∷ l) b i j a d =
        sort-Before (insert_by_start r acc) l (insert-Before r acc j.0 i (Apart-flip r acc l a) b)
          (All-insert (Inside lower upper) r acc j.0 i) j.1
          (All-insert (λ x. All (Apart x) l) r acc d.0
            (All-map (λ x. All (Apart x) (r ∷ l)) (λ x. All (Apart x) l) acc (λ x k. k.1) a))
          d.1
