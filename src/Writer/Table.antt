-- ===== src/Writer/Table.antt =====
-- What the planned changes leave in the partition table: crates/partitioning/src/writer.rs,
-- `apply_changes` and `write`.
use disks_rs.Base.{
  ℕ, ◌≡◌, ◌≢◌, refl, sym, ap, ◌∙◌, arith, inl, inr, true, Option, none, some, List, [], ◌∷◌, All,
  All-map, Pairwise, ◌==◌, if◌then◌else◌, String, Result, ok, Result-cases, ok-inj, err≢ok, done,
  continue, panic, continue-done, panic≢done, fail, fail≢done, Outcome, lift, lift-done,
}
use disks_rs.Disks.{BlockDevice}
use disks_rs.Attributes.{PartitionAttributes}
use disks_rs.Planner.{Change, add_partition, delete_partition, Planner, current_layout}
use disks_rs.Writer.Changes.{
  WriteError, Machine, dropped, lba_range, open_table, apply_change, apply_each, apply_changes,
  commit, validate_changes, write, remove_kernel_partitions, create_kernel_partitions,
  type_and_name, zero_each, zero_regions,
}

module _ {W T G : Type 0} (m : Machine W T G) where
  -- What is documented of the gpt crate's tables, by the first block and the number of blocks of
  -- each partition: an operation on one id leaves the others alone.
  pub record IsTable (look : T → ℕ → Option (ℕ × ℕ)) : Type 0 where
    pub look-add :
        (name : String) (id start count : ℕ) (type : G) (t u : T)
        → m.add_partition_at name id start count type t ≡ ok u
        → (j : ℕ) → look u j ≡ (if id == j then some (start, count) else look t j)
    pub look-remove :
        (id : ℕ) (t : T) (j : ℕ)
        → look (m.remove_partition id t) j ≡ (if id == j then none else look t j)

module _ {W T G : Type 0} (m : Machine W T G) where
  -- The steps of a commit.
  pub commit-steps :
      (t : T) (regions : List (ℕ × ℕ)) (w w' : W)
      → commit m t regions w ≡ done tt w'
      → (v1 v2 v3 : W) × (m.write t w ≡ done tt v1)
        × (m.sync_all v1 ≡ done tt v2)
        × (zero_each m regions v2 ≡ done tt v3)
        × (create_kernel_partitions m v3 ≡ done tt w')
  unfolding commit
  commit-steps t regions w w' h =
      let (_, v1, e, k) = continue-done (m.write t w) _ tt w' h in
      let (_, v2, f, l) = continue-done (m.sync_all v1) _ tt w' k in
      let (_, v3, g, n) = continue-done (zero_each m regions v2) _ tt w' l in
      (v1, v2, v3, e, f, g, n)

  -- The table in memory, changed and committed, once the layout is known.
  in_memory-commits :
      {L : Type 0} (o : Option L) (r : Result WriteError T) (regions : List (ℕ × ℕ)) (w w' : W)
      → elim o [ none ↦ panic | some l ↦ continue (lift r w) (λ u v. commit m u regions v) ]
        ≡ done tt w'
      → (u : T) × (r ≡ ok u) × (commit m u regions w ≡ done tt w')
  in_memory-commits none r regions w w' h = absurd (panic≢done h)
  in_memory-commits (some l) r regions w w' h =
      let (u, v, e, k) = continue-done (lift r w) _ tt w' h in
      let (q, same) = lift-done r u w v e in (u, q, ap (commit m u regions) same ∙ k)

  pub dropped-done :
      (o : Outcome WriteError W Unit) (w' : W)
      → dropped m o ≡ done tt w'
      → (v : W) × (o ≡ done tt v) × (m.close_file v ≡ w')
  dropped-done (done _ v) w' h = (v, refl, cc)
  dropped-done (fail e v) w' h = absurd (fail≢done h)
  dropped-done panic w' h = absurd (panic≢done h)

module _ {A : Type 0} where
  abbrev pub id_of : Change A → ℕ
  id_of (add_partition s e id a) = id
  id_of (delete_partition i id) = id

  -- What the table shall hold under the id of a change: the blocks of an added partition, nothing
  -- for a deleted one.
  abbrev pub wanted : Change A → Option (ℕ × ℕ)
  wanted (add_partition s e id a) = some (lba_range s e)
  wanted (delete_partition i id) = none

module _ {W T G U : Type 0} (m : Machine W T G) (look : T → ℕ → Option (ℕ × ℕ)) where
  apply_change-look :
      (c : Change (PartitionAttributes G U)) (t u : T)
      → IsTable m look
      → apply_change m c t ≡ ok u
      → (j : ℕ) → look u j ≡ (if id_of c == j then wanted c else look t j)
  unfolding apply_change
  apply_change-look (delete_partition i id) t u laws h j =
      ap (λ v. look v j) (sym (ok-inj h)) ∙ laws.look-remove id t j
  apply_change-look (add_partition s e id a) t u laws h j =
      let (type, name) = type_and_name m a in
      laws.look-add name id (lba_range s e).0 (lba_range s e).1 type t u h j

  -- Ids that no change has.
  pub apply_each-other :
      (cs : List (Change (PartitionAttributes G U))) (t u : T) (j : ℕ)
      → IsTable m look
      → apply_each m cs t ≡ ok u
      → All (λ c. id_of c ≢ j) cs
      → look u j ≡ look t j
  unfolding apply_each
  apply_each-other [] t u j laws h k = ap (λ v. look v j) (sym (ok-inj h))
  apply_each-other (c ∷ cs) t u j laws h k = elim (Result-cases (apply_change m c t)) [
    | inl (e, q) ↦ absurd (err≢ok (rw (q, apply_each) at h))
    | inr (v, q) ↦
        apply_each-other cs v u j laws (rw (q, apply_each) at h) k.1
        ∙ apply_change-look c t v laws q j
        ∙ ground (arith, k.0)
  ]

  pub apply_each-wanted :
      (cs : List (Change (PartitionAttributes G U))) (t u : T)
      → IsTable m look
      → apply_each m cs t ≡ ok u
      → Pairwise (λ c d. id_of c ≢ id_of d) cs
      → All (λ c. look u (id_of c) ≡ wanted c) cs
  unfolding apply_each
  apply_each-wanted [] t u laws h k = tt
  apply_each-wanted (c ∷ cs) t u laws h k = elim (Result-cases (apply_change m c t)) [
    | inl (e, q) ↦ absurd (err≢ok (rw (q, apply_each) at h))
    | inr (v, q) ↦ (
      apply_each-other cs v u (id_of c) laws (rw (q, apply_each) at h)
            (All-map _ (λ d. id_of d ≢ id_of c) cs (λ d n e. n (sym e)) k.0)
          ∙ apply_change-look c t v laws q (id_of c)
          ∙ ground arith,
      apply_each-wanted cs v u laws (rw (q, apply_each) at h) k.1,
    )
  ]

  pub apply_changes-commits :
      (d : BlockDevice) (p : Planner (PartitionAttributes G U)) (w w' : W)
      → apply_changes m d p true w ≡ done tt w'
      → (t u : T) × (w1 w2 : W) × (remove_kernel_partitions m w ≡ done tt w1)
        × (open_table m p.wipe_disk d true w1 ≡ done t w2)
        × (apply_each m p.changes t ≡ ok u)
        × (commit m u (zero_regions p.changes) w2 ≡ done tt w')
  unfolding apply_changes
  apply_changes-commits d p w w' h =
      let (a, w1, e, k) = continue-done (remove_kernel_partitions m w) _ tt w' h in
      let (t, w2, opened, l) = continue-done (open_table m p.wipe_disk d true w1) _ tt w' k in
      let (u, q, committed) = in_memory-commits m (current_layout p) _ _ w2 w' l in
      (t, u, w1, w2, e, opened, q, committed)

  -- The steps of a write.
  pub write-steps :
      (d : BlockDevice) (p : Planner (PartitionAttributes G U)) (w w' : W)
      → write m d p w ≡ done tt w'
      → (w0 w3 : W) × (m.open_file true w ≡ done tt w0)
        × (validate_changes p ≡ ok tt)
        × (apply_changes m d p true w0 ≡ done tt w3)
        × (w4 : W) × (m.flush w3 ≡ done tt w4)
        × (m.close_file w4 ≡ w')
  unfolding write
  write-steps d p w w' h =
      let (_, w0, e, k) = continue-done (m.open_file true w) _ tt w' h in
      let (w4, run, closed) = dropped-done m _ w' k in
      let (_, w1, valid, l) = continue-done (lift (validate_changes p) w0) _ tt w4 run in
      let (_, w3, applied, n) = continue-done (apply_changes m d p true w1) _ tt w4 l in
      let (q, same) = lift-done (validate_changes p) tt w0 w1 valid in
      (w0, w3, e, q, ap (apply_changes m d p true) same ∙ applied, w4, n, closed)

  -- Let the machine's tables be as the gpt crate documents them, and let no two planned changes
  -- have one id. If a write succeeds, then the plan was validated, and the table that was written is
  -- the opened one with exactly the planned changes: the id of each added partition has the blocks
  -- of its region, that of each deleted one is free, and all other ids are as they were.
  pub write-wanted :
      (d : BlockDevice) (p : Planner (PartitionAttributes G U)) (w w' : W)
      → IsTable m look
      → Pairwise (λ c d. id_of c ≢ id_of d) p.changes
      → write m d p w ≡ done tt w'
      → (validate_changes p ≡ ok tt)
        × (t u : T) × (w1 w2 v : W) × (open_table m p.wipe_disk d true w1 ≡ done t w2)
        × (m.write u w2 ≡ done tt v)
        × All (λ c. look u (id_of c) ≡ wanted c) p.changes
        × ((j : ℕ) → All (λ c. id_of c ≢ j) p.changes → look u j ≡ look t j)
  write-wanted d p w w' laws distinct h =
      let (w0, w3, _, valid, applied, _, _, _) = write-steps d p w w' h in
      let (t, u, w1, w2, _, opened, q, committed) = apply_changes-commits d p w0 w3 applied in
      let (v, _, _, written, _, _, _) = commit-steps m u (zero_regions p.changes) w2 w3 committed in
      (
        valid,
        t,
        u,
        w1,
        w2,
        v,
        opened,
        written,
        apply_each-wanted p.changes t u laws q distinct,
        λ j other. apply_each-other p.changes t u j laws q other,
      )
