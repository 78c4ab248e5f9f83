-- ===== src/Strategy/Halves.antt =====
-- A disk that two requests cannot share: crates/partitioning/src/strategy.rs, the flexible pass of
-- `apply`, over the alignment of crates/disks/src/sizing.rs, which rounds half a unit up at the end of
-- a partition and down at the start of the next one.
use disks_rs.Base.{
  ℕ, ◌+◌, ◌-◌, ◌*◌, ◌/◌, ◌≤◌, ◌<◌, ◌≡◌, refl, ap, ◌∙◌, arith, true, false, Option, none, some, List,
  [], ◌∷◌, any, add64, sub64, add64-eq, sub64-eq, u64_mod, done, fail,
}
use disks_rs.Sizing.{is_aligned, align_up, align_down}
use disks_rs.Planner.{
  region_overlap, Region, new_region, Planner, partition_alignment, aligned_start, aligned_end,
  overlaps_with, current_layout, layout_of, place, plan_add_partition_with_attributes,
  plan_initialize_disk,
}
use disks_rs.Planner.History.{layout-append_add}
use disks_rs.Planner.Adding.{planned, accepted}
use disks_rs.Strategy.{
  remaining, PartitionRequest, Flexible, initialize_whole_disk, apply, fill, exact_pass,
  flexible_pass, flexible_size, undo_all,
}
use disks_rs.Strategy.Cleanup.{changes-undo_all}

-- Half of the alignment.
abbrev half : ℕ
half = 512 * 1024

up-half :
    (c : ℕ) → is_aligned c partition_alignment ≡ true → align_up (c + half) partition_alignment ≡ c
unfolding is_aligned align_up
up-half c h = ground arith

down-half :
    (c : ℕ)
    → is_aligned c partition_alignment ≡ true
    → c + partition_alignment < u64_mod
    → align_down (c + half) partition_alignment ≡ c + partition_alignment
unfolding is_aligned align_down
down-half c h l = ground (arith, add64-eq (c + half) half (omega arith))

unaligned-half :
    (c : ℕ)
    → is_aligned c partition_alignment ≡ true
    → is_aligned (c + half) partition_alignment ≡ false
unfolding is_aligned
unaligned-half c h = ground arith

same-up : (c : ℕ) → is_aligned c partition_alignment ≡ true → align_up c partition_alignment ≡ c
unfolding is_aligned align_up
same-up c h = ground arith

same-down : (c : ℕ) → is_aligned c partition_alignment ≡ true → align_down c partition_alignment ≡ c
unfolding is_aligned align_down
same-down c h = ground arith

aligned-+ :
    (s n : ℕ)
    → is_aligned s partition_alignment ≡ true
    → is_aligned (s + n * partition_alignment) partition_alignment ≡ true
unfolding is_aligned
aligned-+ s n h = ground arith

abbrev what_remains : ℕ → Flexible
what_remains i = record { index = i; least = 0; most = none }

module _ {A : Type 0} where
  -- A start in the middle of a unit is refused if the last partition ends in that unit.
  overlapping :
      (c e : ℕ) (a : Option A) (p : Planner A) (l : List (Region A))
      → is_aligned c partition_alignment ≡ true
      → is_aligned e partition_alignment ≡ true
      → p.usable_start ≤ c
      → c < e
      → e ≤ p.usable_end
      → current_layout p ≡ some l
      → any (λ r. overlaps_with (new_region c e) r) l ≡ true
      → plan_add_partition_with_attributes (c + half) e a p ≡ fail (region_overlap c e) p
  unfolding plan_add_partition_with_attributes place
  overlapping c e a p l hc he lo lt hi here hit =
      ground (arith, up-half c hc, same-down e he, unaligned-half c hc)

  -- On an empty layout, an end in the middle of a unit is moved to the end of the unit.
  first_added :
      (s c : ℕ) (a : Option A) (p : Planner A)
      → is_aligned s partition_alignment ≡ true
      → is_aligned c partition_alignment ≡ true
      → p.usable_start ≡ s
      → s ≤ c
      → c + partition_alignment ≤ p.usable_end
      → p.usable_end < u64_mod
      → current_layout p ≡ some []
      → plan_add_partition_with_attributes s (c + half) a p
        ≡ done tt (planned s (c + partition_alignment) a p)
  first_added s c a p hs hc same order fits bounded here =
      let t : aligned_start s p ≡ s = omega (arith, same-up s hs) in
      let d : align_down (c + half) partition_alignment ≡ c + partition_alignment =
        down-half c hc (omega arith) in
      let e : aligned_end (c + half) p ≡ c + partition_alignment = omega (arith, d) in
      accepted s (c + half) a p (record {
        start_kept = λ _. omega arith;
        end_kept = λ _. omega arith;
        nonempty = rw (t, e) (omega arith);
        layout = [];
        is_layout = here;
        apart = tt;
      })
      ∙ ap (λ x. done tt (planned x (aligned_end (c + half) p) a p)) t
      ∙ ap (λ x. done tt (planned s x a p)) e

  abbrev pub two_remaining : Option A → Option A → List (PartitionRequest A)
  two_remaining a b =
      record { size = remaining; attributes = a } ∷ record { size = remaining; attributes = b } ∷ []

  -- The share of the first request ends in the middle of a unit, and the rest is refused.
  second_refused :
      (s c e : ℕ) (a b : Option A) (p : Planner A)
      → is_aligned c partition_alignment ≡ true
      → is_aligned e partition_alignment ≡ true
      → p.usable_start ≡ s
      → p.usable_end ≡ e
      → s ≤ c
      → c + partition_alignment ≤ e
      → e < u64_mod
      → current_layout p ≡ some []
      → plan_add_partition_with_attributes (c + half) e b (planned s (c + partition_alignment) a p)
        ≡ fail (region_overlap c e) (planned s (c + partition_alignment) a p)
  second_refused s c e a b p hc he start end order fits bounded here =
      let q = planned s (c + partition_alignment) a p in
      let one : Region A = record {
        start = s;
        end = c + partition_alignment;
        partition_id = some p.next_partition_id;
        attributes = a;
      } in
      overlapping c e b q (one ∷ []) hc he (omega arith) (omega arith) (omega arith)
        (layout-append_add p.original_regions p.changes s (c + partition_alignment)
          p.next_partition_id a [] here)
        (ground arith)

  -- Both rounds of the pass, where `c` is the last aligned position before the middle.
  flexible_pass-refused :
      (s c e : ℕ) (a b : Option A) (p : Planner A)
      → is_aligned s partition_alignment ≡ true
      → is_aligned c partition_alignment ≡ true
      → is_aligned e partition_alignment ≡ true
      → p.usable_start ≡ s
      → p.usable_end ≡ e
      → s ≤ c
      → e + s ≡ 2 * c + partition_alignment
      → e < u64_mod
      → current_layout p ≡ some []
      → flexible_pass (two_remaining a b) (what_remains 0 ∷ what_remains 1 ∷ []) s (e - s) p
        ≡ fail (region_overlap c e) (undo_all (planned s (c + partition_alignment) a p))
  unfolding flexible_pass flexible_size
  flexible_pass-refused s c e a b p hs hc he start end order middle bounded here =
      let share : add64 0 ((e - s) / 2) ≡ (c - s) + half =
        add64-eq 0 ((e - s) / 2) (omega arith) ∙ omega arith in
      let mid : add64 s ((c - s) + half) ≡ c + half =
        add64-eq s ((c - s) + half) (omega arith) ∙ omega arith in
      let left : sub64 (e - s) ((c - s) + half) ≡ (c - s) + half =
        sub64-eq (e - s) ((c - s) + half) (omega arith) (omega arith) ∙ omega arith in
      let last : add64 (c + half) ((c - s) + half) ≡ e =
        add64-eq (c + half) ((c - s) + half) (omega arith) ∙ omega arith in
      let one = first_added s c a p hs hc start order (omega arith) (omega arith) here in
      let two = second_refused s c e a b p hc he start end order (omega arith) bounded here in
      ground arith

  -- Take a usable range that starts at an aligned position, ends below 2 ^ 64 and is an odd number of
  -- units of the alignment long. A strategy that asks for the whole disk, in two partitions that share
  -- what remains, fails: the second one is refused, since it overlaps with the first by one unit. No
  -- change is left.
  pub apply-odd :
      (k : ℕ) (a b : Option A) (p : Planner A)
      → is_aligned p.usable_start partition_alignment ≡ true
      → p.usable_end ≡ p.usable_start + (2 * k + 1) * partition_alignment
      → p.usable_end < u64_mod
      → (q : Planner A) × (apply
            (record { allocation = initialize_whole_disk; requests = two_remaining a b })
            p
          ≡ fail (region_overlap (p.usable_start + k * partition_alignment) p.usable_end) q)
        × (q.changes ≡ [])
  unfolding apply fill exact_pass plan_initialize_disk layout_of
  apply-odd k a b p hs odd bounded =
      let s = p.usable_start in
      let e = p.usable_end in
      let c = s + k * partition_alignment in
      let z = plan_initialize_disk p in
      let space : sub64 e s ≡ e - s = sub64-eq e s (omega arith) bounded in
      let refused =
        flexible_pass-refused s c e a b z hs (aligned-+ s k hs)
          (rw odd (aligned-+ s (2 * k + 1) hs)) refl refl (omega arith) (omega arith) bounded
          refl in
      let u = undo_all (planned s (c + partition_alignment) a z) in
      let none_fixed : add64 0 0 ≡ 0 = add64-eq 0 0 (omega arith) in
      (u, ground arith, changes-undo_all (planned s (c + partition_alignment) a z))
