-- ===== src/Planner/Hazards.antt =====
-- Calls of the planner (crates/partitioning/src/planner.rs) whose result is not what its callers
-- and its documentation mean.
use mathlib.Core.List.{append-nil}
use disks_rs.Base.{
  ℕ, zero, suc, ◌+◌, ◌*◌, ◌≤◌, ◌<◌, ◌≡◌, refl, ap, ◌∙◌, inl, inr, true, Option, some, List, [], ◌∷◌,
  arith, Option-cases, done, length, some-inj,
}
use disks_rs.Disks
use disks_rs.Disks.{Partition, BlockDevice}
use disks_rs.Sizing.{is_aligned}
use disks_rs.Sizing.Nearest.{align_aligned}
use disks_rs.Planner.{
  delete_partition, Planner, Region, plan_delete_partition, plan_add_partition_with_attributes,
  partition_alignment, remove?, layout_of, current_layout, sort_descending, new, regions_from,
  aligned_start, aligned_end,
}
use disks_rs.Planner.Adding.{planned, plan_add_iff}
use disks_rs.Planner.Steps.{delete-done, layout_of-nil}

module _ {A : Type 0} where
  length-remove? :
      (l : List (Region A)) {m : List (Region A)} (i : ℕ)
      → remove? l i ≡ some m
      → length m + 1 ≡ length l
  length-remove? [] i h = cc
  length-remove? (r ∷ l) zero h = omega (arith, ap length (some-inj h))
  length-remove? (r ∷ l) (suc i) h = elim (Option-cases (remove? l i)) [
    | inl e ↦ ground arith
    | inr (m, e) ↦ omega (arith, length-remove? l i e, ap length (some-inj (rw e at h)))
  ]

  remove?-some :
      (l : List (Region A)) (i : ℕ) → i < length l → (m : List (Region A)) × (remove? l i ≡ some m)
  remove?-some [] i h = elim h [ ]
  remove?-some (r ∷ l) zero h = (l, refl)
  remove?-some (r ∷ l) (suc i) h = let (m, e) = remove?-some l i (omega arith) in (r ∷ m, rw e)

  -- The layout after the index `i` was deleted twice.
  layout_twice :
      (o : List (Region A)) (i n m : ℕ) (l : List (Region A))
      → remove? o i ≡ some l
      → layout_of o (delete_partition i n ∷ delete_partition i m ∷ []) ≡ remove? l i
  unfolding layout_of sort_descending
  layout_twice o i n m l h = elim (Option-cases (remove? l i)) [
    | inl f ↦ ground arith
    | inr (k, f) ↦ ground (arith, append-nil k)
  ]

  -- If a planner without pending changes accepts the deletion of one and the same partition twice,
  -- and the partition is not the last one, its layout then lacks two of the original regions.
  pub plan_delete_twice :
      (i : ℕ) (p q r : Planner A)
      → p.changes ≡ []
      → plan_delete_partition i p ≡ done tt q
      → plan_delete_partition i q ≡ done tt r
      → i + 1 < length p.original_regions
      → (l : List (Region A)) × (current_layout r ≡ some l)
        × (length l + 2 ≡ length p.original_regions)
  plan_delete_twice i p q r e h k inner =
      let (n, lt, eq) = delete-done i p q h in
      let (m, _, eq') = delete-done i q r k in
      let o = p.original_regions in
      let cs : r.changes ≡ delete_partition i n ∷ delete_partition i m ∷ [] = cc in
      let (l, f) = remove?-some o i lt in
      let twice : current_layout r ≡ remove? l i =
        ap (λ (x : Planner A). layout_of x.original_regions r.changes) eq'
        ∙ ap (λ (x : Planner A). layout_of x.original_regions r.changes) eq
        ∙ ap (layout_of o) cs
        ∙ layout_twice o i n m l f in
      let (l', g) = remove?-some l i (omega (arith, length-remove? o i f)) in
      (l', twice ∙ g, omega (arith, length-remove? o i f, length-remove? l i g))

  -- A partition's bounds are counted in sectors and taken over as bytes. So on a device whose only
  -- partition has the byte range start * 512 .. end * 512, nonempty, aligned and on the disk, with
  -- an end sector that is no greater than its start byte, a new planner accepts the addition of a
  -- partition on exactly that byte range, which is in use.
  pub new-accepts_occupied :
      (d : BlockDevice) (part : Partition) (a : Option A)
      → Disks.partitions d ≡ part ∷ []
      → is_aligned (part.start * 512) partition_alignment ≡ true
      → is_aligned (part.end * 512) partition_alignment ≡ true
      → part.start < part.end
      → part.end * 512 ≤ Disks.size d
      → part.end ≤ part.start * 512
      → plan_add_partition_with_attributes (part.start * 512) (part.end * 512) a (new d)
        ≡ done tt (planned (part.start * 512) (part.end * 512) a (new d))
  unfolding new
  new-accepts_occupied d part a one s e lt fits small =
      let start = part.start * 512 in
      let end = part.end * 512 in
      let b : aligned_start start (new {A = A} d) ≡ start =
        omega (arith, (align_aligned start partition_alignment s).0) in
      let c : aligned_end end (new {A = A} d) ≡ end =
        omega (arith, (align_aligned end partition_alignment e).1) in
      (plan_add_iff start end a (new d) (planned start end a (new d))).1 (
        record {
          start_kept = λ _. omega arith;
          end_kept = λ _. fits;
          nonempty = rw (b, c) (omega arith);
          layout = regions_from (part ∷ []);
          is_layout = rw one (layout_of-nil (regions_from (part ∷ [])));
          apart = (inr (omega (arith, b)), tt);
        },
        rw (b, c),
      )
