-- ===== src/Planner/Numbers.antt =====
-- Partition ids: crates/partitioning/src/planner.rs, `allocate_partition_id`.
use disks_rs.Base.{
  ℕ, max, ◌+◌, ◌<◌, ◌≤◌, ◌≡◌, refl, ap, ◌∙◌, List, [], ◌∷◌, ◌++◌, arith, All, Pairwise,
  Pairwise-append_one, All-map, All-append, add32, add32-eq, u32_mod,
}
use mathlib.Core.List.{append-nil}
use disks_rs.Disks
use disks_rs.Disks.{Partition, BlockDevice}
use disks_rs.Planner.{
  numbers, max_from, new, Change, add_partition, delete_partition, Planner, drop_last, undo, reset,
  plan_initialize_disk, aligned_start, aligned_end,
}
use disks_rs.Planner.Adding.{plan_add_iff}
use disks_rs.Planner.Steps.{delete-done, Step, add, delete, undone, cleared, initialized}

module _ {A : Type 0} where
  -- The ids of the planned additions, in order.
  abbrev pub added_ids : List (Change A) → List ℕ
  added_ids [] = []
  added_ids (add_partition s e i a ∷ cs) = i ∷ added_ids cs
  added_ids (delete_partition i n ∷ cs) = added_ids cs

  -- The ids of planned partitions rise, and those to come are above them and above the ids that the
  -- disk's own partitions have.
  pub record IsNumbered (p : Planner A) : Type 0 where
    pub rising : Pairwise ◌<◌ (added_ids p.changes)
    pub below : All (λ i. i < p.next_partition_id) (added_ids p.changes)
    pub originals : All (λ i. i < p.next_partition_id) p.original_partition_ids

  added_ids-append :
      (cs : List (Change A)) (c : Change A)
      → added_ids (cs ++ c ∷ []) ≡ added_ids cs ++ added_ids (c ∷ [])
  added_ids-append [] c = refl
  added_ids-append (add_partition s e i a ∷ cs) c = ap (λ l. i ∷ l) (added_ids-append cs c)
  added_ids-append (delete_partition i n ∷ cs) c = added_ids-append cs c

  All-added_ids-drop_last :
      (P : ℕ → Type 0) (cs : List (Change A))
      → All P (added_ids cs)
      → All P (added_ids (drop_last cs))
  All-added_ids-drop_last P [] h = tt
  All-added_ids-drop_last P (c ∷ []) h = tt
  All-added_ids-drop_last P (add_partition s e i a ∷ d ∷ cs) h =
      (h.0, All-added_ids-drop_last P (d ∷ cs) h.1)
  All-added_ids-drop_last P (delete_partition i n ∷ d ∷ cs) h = All-added_ids-drop_last P (d ∷ cs) h

  rising-drop_last :
      (cs : List (Change A)) → Pairwise ◌<◌ (added_ids cs) → Pairwise ◌<◌ (added_ids (drop_last cs))
  rising-drop_last [] h = tt
  rising-drop_last (c ∷ []) h = tt
  rising-drop_last (add_partition s e i a ∷ d ∷ cs) h =
      (All-added_ids-drop_last (λ j. i < j) (d ∷ cs) h.0, rising-drop_last (d ∷ cs) h.1)
  rising-drop_last (delete_partition i n ∷ d ∷ cs) h = rising-drop_last (d ∷ cs) h

  -- Every successful call keeps the numbering, as long as the 32-bit counter is not used up.
  pub Step-IsNumbered :
      (p q : Planner A) → p.next_partition_id + 1 < u32_mod → Step p q → IsNumbered p → IsNumbered q
  unfolding undo reset plan_initialize_disk
  Step-IsNumbered p q b (add s e a h) v =
      let (_, eq) = (plan_add_iff s e a p q).0 h in
      let n : add32 p.next_partition_id 1 ≡ p.next_partition_id + 1 =
        add32-eq p.next_partition_id 1 b in
      let i = p.next_partition_id in
      let S = aligned_start s p in
      let E = aligned_end e p in
      let ids : added_ids (p.changes ++ add_partition S E i a ∷ [])
          ≡ added_ids p.changes ++ i ∷ [] =
        added_ids-append p.changes (add_partition S E i a) in
      rw eq (record {
        rising = rw ids (Pairwise-append_one ◌<◌ (added_ids p.changes) i v.rising v.below);
        below =
            rw (ids, n)
              (All-append (λ j. j < i + 1) (added_ids p.changes) (i ∷ [])
                (All-map (λ j. j < i) (λ j. j < i + 1) (added_ids p.changes) (λ j k. omega arith)
                  v.below)
                (omega arith, tt));
        originals = rw n (
            All-map (λ j. j < i) (λ j. j < i + 1) p.original_partition_ids (λ j k. omega arith)
              v.originals);
      })
  Step-IsNumbered p q b (delete i h) v =
      let (n, _, eq) = delete-done i p q h in
      let ids : added_ids (p.changes ++ delete_partition i n ∷ []) ≡ added_ids p.changes =
        added_ids-append p.changes (delete_partition i n) ∙ append-nil (added_ids p.changes) in
      rw eq (record { rising = rw ids v.rising; below = rw ids v.below; originals = v.originals })
  Step-IsNumbered p q b (undone e) v = rw e (record {
    rising = rising-drop_last p.changes v.rising;
    below = All-added_ids-drop_last (λ i. i < p.next_partition_id) p.changes v.below;
    originals = v.originals;
  })
  Step-IsNumbered p q b (cleared e) v =
      rw e (record { rising = tt; below = tt; originals = v.originals })
  Step-IsNumbered p q b (initialized e) v =
      rw e (record { rising = tt; below = tt; originals = tt })

-- The running maximum is above each number that it has met.
max_from-le : (m : ℕ) (parts : List Partition) → m ≤ max_from m parts
max_from-le m [] = omega arith
max_from-le m (x ∷ parts) = omega (arith, max_from-le (max m x.number) parts)

numbers-le : (m : ℕ) (parts : List Partition) → All (λ i. i ≤ max_from m parts) (numbers parts)
numbers-le m [] = tt
numbers-le m (x ∷ parts) =
    (omega (arith, max_from-le (max m x.number) parts), numbers-le (max m x.number) parts)

-- A new planner is numbered, if the device's greatest partition number leaves room in 32 bits.
pub new-IsNumbered :
    {A : Type 0} (d : BlockDevice)
    → max_from 0 (Disks.partitions d) + 1 < u32_mod
    → IsNumbered (new {A = A} d)
unfolding new
new-IsNumbered d b =
    let parts = Disks.partitions d in
    record {
      rising = tt;
      below = tt;
      originals = rw (add32-eq (max_from 0 parts) 1 b) (
          All-map (λ i. i ≤ max_from 0 parts) (λ i. i < max_from 0 parts + 1) (numbers parts)
            (λ i k. omega arith) (numbers-le 0 parts));
    }
