-- ===== src/Strategy/FreeRegions.antt =====
-- The free regions that a strategy chooses from are the complement of the layout:
-- crates/partitioning/src/strategy.rs, `find_free_regions`.
use disks_rs.Base.{
  ℕ, ◌≤◌, ◌<◌, ◌≡◌, ◌⊎◌, inl, inr, some, List, [], ◌∷◌, arith, All, All-map, Any, Pairwise, ltb,
  ltb→lt, ltb→ge, lt→ltb, Bool-cases,
}
use disks_rs.Planner.{Region, Planner, new_region, current_layout}
use disks_rs.Planner.Adding.{Apart}
use disks_rs.Planner.History.{IsDisjoint}
use disks_rs.Strategy.{sort_by_start, gaps, find_free_regions}
use disks_rs.Strategy.ByStart.{Inside, Holds, Before, All-sort, sort-All, sort-Any, sort-Before}

module _ {A : Type 0} where
  -- Every gap lies behind `current`, holds a position, and is apart from each region.
  abbrev Gap : ℕ → ℕ → List (Region A) → Region A → Type 0
  Gap current disk_size l f =
      (current ≤ f.start) × (f.start < f.end) × (f.end ≤ disk_size) × All (Apart f) l

  Before-All :
      (f r : Region A) (l : List (Region A))
      → f.end ≤ r.start
      → r.start < r.end
      → All (Before r) l
      → All (Apart f) l
  Before-All f r [] h k b = tt
  Before-All f r (t ∷ l) h k b = (inl (omega arith), Before-All f r l h k b.1)

  gaps_sound :
      (lower disk_size current : ℕ) (l : List (Region A))
      → All (Inside lower disk_size) l
      → All (λ r. current ≤ r.start) l
      → Pairwise Before l
      → All (Gap current disk_size l) (gaps disk_size current l)
  unfolding gaps
  gaps_sound lower d c [] i s b = elim (Bool-cases (ltb c d)) [
    | inl lt ↦ rw lt ((omega arith, ltb→lt _ _ lt, omega arith, tt), tt)
    | inr ge ↦ rw ge tt
  ]
  gaps_sound lower d c (r ∷ l) i s b =
      let rest : All (Gap c d (r ∷ l)) (gaps d r.end l) =
        All-map (Gap r.end d l) (Gap c d (r ∷ l)) (gaps d r.end l)
          (λ f g. (omega (arith, g.0, s.0, i.0.nonempty), g.1, g.2, (inr g.0, g.3)))
          (gaps_sound lower d r.end l i.1 b.0 b.1) in
      elim (Bool-cases (ltb c r.start)) [
        | inl lt ↦ rw lt (
          (
            omega arith,
            ltb→lt _ _ lt,
            omega (arith, i.0.nonempty, i.0.upto),
            (
              inl (omega arith),
              Before-All (new_region c r.start) r l (omega arith) i.0.nonempty b.0,
            ),
          ),
          rest,
        )
        | inr ge ↦ rw ge rest
      ]

  later_gap :
      (c d : ℕ) (r : Region A) (l : List (Region A)) (x : ℕ)
      → Any (Holds x) (gaps d r.end l)
      → Any (Holds x) (gaps d c (r ∷ l))
  unfolding gaps
  later_gap c d r l x h = elim (Bool-cases (ltb c r.start)) [
    | inl lt ↦ rw lt (inr h)
    | inr ge ↦ rw ge h
  ]

  gaps_cover :
      (disk_size current x : ℕ) (l : List (Region A))
      → current ≤ x
      → x < disk_size
      → Any (Holds x) l ⊎ Any (Holds x) (gaps disk_size current l)
  unfolding gaps
  gaps_cover d c x [] h k = rw (lt→ltb c d (omega arith)) (inr (inl (h, k)))
  gaps_cover d c x (r ∷ l) h k = elim (Bool-cases (ltb x r.start)) [
    | inl before ↦
        rw (lt→ltb c r.start (omega (arith, ltb→lt _ _ before))) (inr (inl (h, ltb→lt _ _ before)))
    | inr from ↦ elim (Bool-cases (ltb x r.end)) [
      | inl within ↦ inl (inl (ltb→ge _ _ from, ltb→lt _ _ within))
      | inr after ↦ elim (gaps_cover d r.end x l (ltb→ge _ _ after) k) [
        | inl used ↦ inl (inr used)
        | inr free ↦ inr (later_gap c d r l x free)
      ]
    ]
  ]

  -- For a layout of regions that hold a position, lie in the usable range and share no position,
  -- `find_free_regions` returns its complement: each free region holds a position, lies in the
  -- usable range and is apart from every region of the layout, and each usable position lies in a
  -- region of the layout or in a free region.
  pub find_free_regions-complement :
      (p : Planner A) (l : List (Region A))
      → current_layout p ≡ some l
      → IsDisjoint l
      → All (Inside p.usable_start p.usable_end) l
      → (free : List (Region A)) × (find_free_regions p ≡ some free)
        × All (λ f. Inside p.usable_start p.usable_end f × All (Apart f) l) free
        × ((x : ℕ) → p.usable_start ≤ x → x < p.usable_end → Any (Holds x) l ⊎ Any (Holds x) free)
  unfolding find_free_regions
  find_free_regions-complement p l e d i =
      let sorted = sort_by_start [] l in
      let lower = p.usable_start in
      let upper = p.usable_end in
      let inside : All (Inside lower upper) sorted = All-sort (Inside lower upper) [] l tt i in
      let before : Pairwise Before sorted = sort-Before lower upper [] l tt tt i tt d in
      let starts : All (λ r. lower ≤ r.start) sorted =
        All-map (Inside lower upper) (λ r. lower ≤ r.start) sorted (λ r k. k.from) inside in
      (
        gaps upper lower sorted,
        ground arith,
        All-map (Gap lower upper sorted) (λ f. Inside lower upper f × All (Apart f) l)
            (gaps upper lower sorted)
            (λ f g.
              (record { from = g.0; nonempty = g.1; upto = g.2 }, (sort-All (Apart f) [] l g.3).1))
            (gaps_sound lower upper lower sorted inside starts before),
        λ x h k. elim (gaps_cover upper lower x sorted h k) [
          | inl used ↦ elim (sort-Any (Holds x) [] l used) [
            | inl none_yet ↦ absurd none_yet
            | inr used' ↦ inl used'
          ]
          | inr free ↦ inr free
        ],
      )
