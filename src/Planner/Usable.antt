-- ===== src/Planner/Usable.antt =====
-- Planned partitions stay in the usable range: crates/partitioning/src/planner.rs,
-- `plan_add_partition_with_attributes`.
use disks_rs.Base.{ℕ, ◌<◌, ◌≤◌, ◌≡◌, refl, List, [], ◌∷◌, arith, All, All-append}
use disks_rs.Planner.{
  Change, add_partition, delete_partition, Planner, drop_last, undo, reset, plan_initialize_disk,
  aligned_start, aligned_end,
}
use disks_rs.Planner.Adding.{plan_add_iff}
use disks_rs.Planner.Steps.{
  delete-done, Step, add, delete, undone, cleared, initialized, Reach, here, next,
}

module _ {A : Type 0} where
  -- An added partition has positions, all of them between the bounds.
  abbrev pub IsWithin : ℕ → ℕ → Change A → Type 0
  IsWithin lower upper (add_partition s e id a) = (lower ≤ s) × (s < e) × (e ≤ upper)
  IsWithin lower upper (delete_partition i id) = Unit

  record IsUsable (lower upper : ℕ) (p : Planner A) : Type 0 where
    same_start : p.usable_start ≡ lower
    same_end : p.usable_end ≡ upper
    within : All (IsWithin lower upper) p.changes

  All-drop_last : (P : Change A → Type 0) (cs : List (Change A)) → All P cs → All P (drop_last cs)
  All-drop_last P [] h = tt
  All-drop_last P (c ∷ []) h = tt
  All-drop_last P (c ∷ d ∷ cs) h = (h.0, All-drop_last P (d ∷ cs) h.1)

  Step-IsUsable :
      (lower upper : ℕ) (p q : Planner A)
      → Step p q
      → IsUsable lower upper p
      → IsUsable lower upper q
  unfolding undo reset plan_initialize_disk
  Step-IsUsable lower upper p q (add s e a h) v =
      let (acc, eq) = (plan_add_iff s e a p q).0 h in
      let S = aligned_start s p in
      let E = aligned_end e p in
      let low : p.usable_start ≤ S = omega arith in
      let high : E ≤ p.usable_end = omega arith in
      rw eq (record {
        same_start = v.same_start;
        same_end = v.same_end;
        within =
            All-append (IsWithin lower upper) p.changes
              (add_partition S E p.next_partition_id a ∷ []) v.within
              (
                (omega (arith, low, v.same_start), acc.nonempty, omega (arith, high, v.same_end)),
                tt,
              );
      })
  Step-IsUsable lower upper p q (delete i h) v =
      let (n, _, eq) = delete-done i p q h in
      rw eq (record {
        same_start = v.same_start;
        same_end = v.same_end;
        within =
            All-append (IsWithin lower upper) p.changes (delete_partition i n ∷ []) v.within
              (tt, tt);
      })
  Step-IsUsable lower upper p q (undone e) v = rw e (record {
    same_start = v.same_start;
    same_end = v.same_end;
    within = All-drop_last (IsWithin lower upper) p.changes v.within;
  })
  Step-IsUsable lower upper p q (cleared e) v =
      rw e (record { same_start = v.same_start; same_end = v.same_end; within = tt })
  Step-IsUsable lower upper p q (initialized e) v =
      rw e (record { same_start = v.same_start; same_end = v.same_end; within = tt })

  Reach-IsUsable :
      (lower upper : ℕ) (p q : Planner A)
      → IsUsable lower upper p
      → Reach p q
      → IsUsable lower upper q
  Reach-IsUsable lower upper p q v here = v
  Reach-IsUsable lower upper p q v (next {q = m} r s) =
      Step-IsUsable lower upper m q s (Reach-IsUsable lower upper p m v r)

  -- After any sequence of successful additions, deletions, `undo`, `reset` and
  -- `plan_initialize_disk` on a planner without pending changes, each planned partition has
  -- positions, and all of them are in that planner's usable range.
  pub Reach-IsWithin :
      (p q : Planner A)
      → p.changes ≡ []
      → Reach p q
      → All (IsWithin p.usable_start p.usable_end) q.changes
  Reach-IsWithin p q e r =
      (Reach-IsUsable p.usable_start p.usable_end p q
        (record { same_start = refl; same_end = refl; within = rw e tt }) r).within
