-- ===== src/Strategy/Examples.antt =====
-- The theorems on strategies at concrete disks.
use disks_rs.Base.{true, ◌+◌, fail}
use disks_rs.Base.{
  ℕ, ◌*◌, ◌<◌, ◌≤◌, ◌≡◌, ◌≢◌, ◌++◌, ◌⊎◌, refl, arith, inl, false, none, some, List, [], ◌∷◌, All,
  Any, done, add64, sub64,
}
use disks_rs.Sizing.{is_aligned, align_up, align_down}
use disks_rs.Planner.{
  region_out_of_bounds, region_overlap, Planner, Region, plan_add_partition_with_attributes,
  current_layout, place, layout_of, plan_initialize_disk,
}
use disks_rs.Planner.Adding.{Apart, planned}
use disks_rs.Planner.History.{IsDisjoint, region_of}
use disks_rs.Strategy.{
  Strategy, Flexible, initialize_whole_disk, apply, exact_pass, flexible_pass, undo_all,
  find_free_regions,
}
use disks_rs.Strategy.Steps.{apply-IsDisjoint}
use disks_rs.Strategy.Cleanup.{flexible_pass-fail}
use disks_rs.Strategy.ByStart.{Inside, Holds}
use disks_rs.Strategy.FreeRegions.{find_free_regions-complement}
use disks_rs.Strategy.Exact.{exacts, consecutive, additions, apply-exact}
use disks_rs.Strategy.Remaining.{filling, apply-filling}
use disks_rs.Strategy.Halves.{two_remaining, apply-odd}
use disks_rs.Strategy.Refusal.{at_leasts, apply-refuses}

abbrev mb : ℕ
mb = 1024 * 1024

abbrev region : ℕ → ℕ → ℕ → Region ℕ
region start end id = record { start = start; end = end; partition_id = some id; attributes = none }

abbrev two_partitions : Planner ℕ
two_partitions = record {
  usable_start = mb;
  usable_end = 16 * mb;
  changes = [];
  original_regions = region mb (4 * mb) 1 ∷ region (8 * mb) (9 * mb) 2 ∷ [];
  original_partition_ids = 1 ∷ 2 ∷ [];
  next_partition_id = 3;
  wipe_disk = false;
}

abbrev whole : Strategy ℕ
whole = record {
  allocation = initialize_whole_disk;
  requests = exacts ((2 * mb, none) ∷ (3 * mb, none) ∷ []);
}

apply-exact_example :
    (q : Planner ℕ) × (apply whole two_partitions ≡ done tt q)
    × (current_layout q ≡ some (consecutive mb 1 ((2 * mb, none) ∷ (3 * mb, none) ∷ [])))
    × (q.changes ≡ additions mb 1 ((2 * mb, none) ∷ (3 * mb, none) ∷ []))
    × (q.wipe_disk ≡ true)
unfolding is_aligned
apply-exact_example =
    apply-exact ((2 * mb, none) ∷ (3 * mb, none) ∷ []) two_partitions
      ((refl, omega arith), ((refl, omega arith), tt)) refl (omega arith) (omega arith)
      (omega arith)

apply-IsDisjoint_example :
    IsDisjoint (consecutive {A = ℕ} mb 1 ((2 * mb, none) ∷ (3 * mb, none) ∷ []))
unfolding apply sub64 plan_initialize_disk add64 exact_pass plan_add_partition_with_attributes
    is_aligned align_up align_down place layout_of flexible_pass
apply-IsDisjoint_example =
    apply-IsDisjoint whole two_partitions _ _ refl ((inl (omega arith), tt), (tt, tt)) refl refl

find_free_regions_example :
    (free : List (Region ℕ)) × (find_free_regions two_partitions ≡ some free)
    × All (λ f. Inside mb (16 * mb) f × All (Apart f) two_partitions.original_regions) free
    × ((x : ℕ)
        → mb ≤ x
        → x < 16 * mb
        → Any (Holds x) two_partitions.original_regions ⊎ Any (Holds x) free)
unfolding layout_of
find_free_regions_example =
    find_free_regions-complement two_partitions two_partitions.original_regions refl
      ((inl (omega arith), tt), (tt, tt))
      (
        record { from = omega arith; nonempty = omega arith; upto = omega arith },
        (record { from = omega arith; nonempty = omega arith; upto = omega arith }, tt),
      )

-- A planner with an addition pending.
abbrev pending : Planner ℕ
pending = planned (4 * mb) (5 * mb) none two_partitions

-- More than the space that is left is asked for.
abbrev greedy : Flexible
greedy = record { index = 0; least = 20 * mb; most = none }

flexible_pass-fail_example : (undo_all pending).changes ≡ []
unfolding flexible_pass add64
flexible_pass-fail_example =
    flexible_pass-fail [] (greedy ∷ []) (5 * mb) (3 * mb) pending (undo_all pending)
      (region_out_of_bounds (5 * mb) (25 * mb)) refl

apply-filling_example :
    (q : Planner ℕ) × (apply
        (record {
          allocation = initialize_whole_disk;
          requests = filling ((2 * mb, none) ∷ (3 * mb, none) ∷ []) none;
        })
        two_partitions
      ≡ done tt q)
    × (current_layout q
        ≡ some (
            consecutive mb 1 ((2 * mb, none) ∷ (3 * mb, none) ∷ [])
            ++ region_of (6 * mb) (16 * mb) 3 none ∷ []))
unfolding is_aligned
apply-filling_example =
    apply-filling ((2 * mb, none) ∷ (3 * mb, none) ∷ []) none two_partitions
      ((refl, omega arith), ((refl, omega arith), tt)) refl refl (omega arith) (omega arith)
      (omega arith)

-- 4 and 6 MiB of 15 MiB.
apply-refuses_example :
    apply
      (record {
        allocation = initialize_whole_disk;
        requests = at_leasts (4 * mb) none (6 * mb) none;
      })
      two_partitions
    ≢ done tt two_partitions
apply-refuses_example =
    apply-refuses (4 * mb) (6 * mb) none none two_partitions two_partitions (omega arith)
      (omega arith) (omega arith) (omega arith) (omega arith)

-- A device of 32 GiB less one MiB, with the alignment left free at both ends.
abbrev odd_range : Planner ℕ
odd_range = record {
  usable_start = 1048576;
  usable_end = 1048576 + (2 * 16382 + 1) * 1048576;
  changes = [];
  original_regions = [];
  original_partition_ids = [];
  next_partition_id = 1;
  wipe_disk = false;
}

apply-odd_example :
    (q : Planner ℕ) × (apply
        (record { allocation = initialize_whole_disk; requests = two_remaining none none })
        odd_range
      ≡ fail (region_overlap (1048576 + 16382 * 1048576) (1048576 + (2 * 16382 + 1) * 1048576)) q)
    × (q.changes ≡ [])
unfolding is_aligned
apply-odd_example = apply-odd 16382 none none odd_range refl refl (omega arith)
