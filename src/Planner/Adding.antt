-- ===== src/Planner/Adding.antt =====
-- When a partition can be planned, and what the planner is then.
use disks_rs.Base.{
  ℕ, ◌≤◌, ◌<◌, ◌≡◌, ◌↔◌, ◌⊎◌, refl, inl, inr, true, false, Option, some, List, [], ◌∷◌, ◌++◌, arith,
  All, any, Bool-cases, Option-cases, done, add32,
}
use disks_rs.Sizing.{is_aligned}
use disks_rs.Sizing.Nearest.{align_aligned}
use disks_rs.Planner.{
  Region, Planner, add_partition, new_region, overlaps_with, current_layout, aligned_start,
  aligned_end, partition_alignment, place, plan_add_partition_with_attributes,
}

-- Two regions share no position.
abbrev pub Apart : {A : Type 0} → Region A → Region A → Type 0
Apart r s = (r.end ≤ s.start) ⊎ (s.end ≤ r.start)

module _ {A : Type 0} where
  pub any-All :
      (r : Region A) (l : List (Region A))
      → any (λ s. overlaps_with r s) l ≡ false
      → All (Apart r) l
  any-All r [] h = tt
  any-All r (s ∷ l) h = (ground arith, any-All r l (ground arith))

  pub All-any :
      (r : Region A) (l : List (Region A))
      → All (Apart r) l
      → any (λ s. overlaps_with r s) l ≡ false
  All-any r [] h = refl
  All-any r (s ∷ l) h = ground (arith, All-any r l h.1)

  -- The planner after a partition was added.
  abbrev pub planned : ℕ → ℕ → Option A → Planner A → Planner A
  planned s e attributes p = record p {
    next_partition_id = add32 p.next_partition_id 1;
    changes = p.changes ++ add_partition s e p.next_partition_id attributes ∷ [];
  }

  -- What is asked of a request, said without the code's tests.
  pub record Accepts (start end : ℕ) (p : Planner A) : Type 0 where
    pub start_kept : is_aligned start partition_alignment ≡ true → p.usable_start ≤ start
    pub end_kept : is_aligned end partition_alignment ≡ true → end ≤ p.usable_end
    pub nonempty : aligned_start start p < aligned_end end p
    pub layout : List (Region A)
    pub is_layout : current_layout p ≡ some layout
    pub apart : All (Apart (new_region (aligned_start start p) (aligned_end end p))) layout

  place-done :
      (s e : ℕ) (a : Option A) (p q : Planner A)
      → place s e a p ≡ done tt q
      → (l : List (Region A)) × (current_layout p ≡ some l)
        × All (Apart (new_region s e)) l
        × (q ≡ planned s e a p)
  unfolding place
  place-done s e a p q h = elim (Option-cases (current_layout p)) [
    | inl none_left ↦ ground arith
    | inr (l, here) ↦ elim (Bool-cases (any (λ r. overlaps_with (new_region s e) r) l)) [
      | inl hit ↦ ground arith
      | inr clear ↦ (l, here, any-All (new_region s e) l clear, ground arith)
    ]
  ]

  done-place :
      (s e : ℕ) (a : Option A) (p : Planner A) (l : List (Region A))
      → current_layout p ≡ some l
      → All (Apart (new_region s e)) l
      → place s e a p ≡ done tt (planned s e a p)
  unfolding place
  done-place s e a p l here apart = ground (arith, All-any (new_region s e) l apart)

  pub accepted :
      (start end : ℕ) (a : Option A) (p : Planner A)
      → Accepts start end p
      → plan_add_partition_with_attributes start end a p
        ≡ done tt (planned (aligned_start start p) (aligned_end end p) a p)
  unfolding plan_add_partition_with_attributes
  accepted start end a p h = ground (
    arith,
    done-place (aligned_start start p) (aligned_end end p) a p h.layout h.is_layout h.apart,
    align_aligned start partition_alignment,
    align_aligned end partition_alignment,
  )

  -- The guards that a successful call has passed.
  plan_add-guards :
      (start end : ℕ) (a : Option A) (p q : Planner A)
      → plan_add_partition_with_attributes start end a p ≡ done tt q
      → (is_aligned start partition_alignment ≡ true → p.usable_start ≤ start)
        × (is_aligned end partition_alignment ≡ true → end ≤ p.usable_end)
        × (aligned_start start p < aligned_end end p)
        × (place (aligned_start start p) (aligned_end end p) a p ≡ done tt q)
  unfolding plan_add_partition_with_attributes
  plan_add-guards start end a p q h = (
    λ i. ground (arith, align_aligned start partition_alignment i),
    λ i. ground (arith, align_aligned end partition_alignment i),
    ground arith,
    ground arith,
  )

  -- A request is accepted exactly if it meets the conditions of `Accepts` (an aligned bound lies on
  -- the usable side, something is left after alignment, and the layout has no region in its way),
  -- and then the planner gains that one change, under the next id, and nothing else.
  pub plan_add_iff :
      (start end : ℕ) (a : Option A) (p q : Planner A)
      → (plan_add_partition_with_attributes start end a p ≡ done tt q)
        ↔ (Accepts start end p × (q ≡ planned (aligned_start start p) (aligned_end end p) a p))
  plan_add_iff start end a p q = (
    λ h.
        let (g₁, g₂, g₃, placed) = plan_add-guards start end a p q h in
        let (l, here, apart, e) =
          place-done (aligned_start start p) (aligned_end end p) a p q placed in
        (
          record {
            start_kept = g₁;
            end_kept = g₂;
            nonempty = g₃;
            layout = l;
            is_layout = here;
            apart = apart;
          },
          e,
        ),
    λ (h, e). rw e (accepted start end a p h),
  )
