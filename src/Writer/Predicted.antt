-- ===== src/Writer/Predicted.antt =====
-- A simulation tells what a write will do: crates/partitioning/src/writer.rs, `simulate` and `write`.
use disks_rs.Base.{
  ℕ, ◌*◌, ◌≤◌, ◌<◌, ◌≡◌, refl, sym, ap, ◌∙◌, arith, subst, inl, inr, Bool, true, false, Option,
  none, some, List, [], ◌∷◌, All, String, Result, ok, err, Result-cases, err≢ok, ok-inj, Outcome,
  done, continue, continue-done, panic, panic≢done, fail≢done, lift, lift-done, u64_mod, ◌==◌,
  if◌then◌else◌,
}
use disks_rs.Disks.{BlockDevice}
use disks_rs.Attributes.{PartitionAttributes}
use disks_rs.Planner.{Change, add_partition, delete_partition, Planner, Region, current_layout}
use disks_rs.Writer.{Store, zero_disk_headers}
use disks_rs.Writer.Changes.{
  WriteError, Machine, dropped, lba_range, type_and_name, on_store, lb_size, open_table,
  apply_change, apply_each, apply_changes, validate_changes, zero_regions, simulate, write,
}
use disks_rs.Writer.Answers.{device_size, IsAnswering, remove-done}
use disks_rs.Writer.Zeroing.{zero_region-Zeroes}
use disks_rs.Writer.Table.{IsTable, dropped-done}
use disks_rs.Writer.Simulation.{IsReadOnly, Keeps, simulate-Keeps}
use disks_rs.Writer.Progress.{
  IsOn, HasZeroPrefix, on_store-done, open_table-done, commit-done, apply_changes-succeeds,
  write-through,
}

same_end :
    {E S A : Type 0} {o : Outcome E S A} {a b : A} {s t : S} → o ≡ done a s → o ≡ done b t → s ≡ t
same_end h k = let both = sym h ∙ k in cc

module _ {T : Type 0} (look : T → ℕ → Option (ℕ × ℕ)) where
  -- The tables hold the same partitions.
  abbrev pub Same : T → T → Type 0
  Same t u = (j : ℕ) → look t j ≡ look u j

module _ {W T G F : Type 0} (m : Machine W T G) (look : T → ℕ → Option (ℕ × ℕ))
    (frame : T → F) where
  -- The tables hold the same partitions, and so do their headers say of the usable blocks and the
  -- number of entries.
  abbrev pub Alike : T → T → Type 0
  Alike t u = Same look t u × (frame t ≡ frame u)

  -- What is documented of tables, where `frame` is the part of a table's header that counts for
  -- additions, its first and last usable block and its number of entries: that and the partitions
  -- determine what can be added, and a change makes alike headers of alike ones; a created table is
  -- empty, and its header is made for the device's size; a device with the same contents is opened
  -- with the same table.
  pub record IsConsistent : Type 0 where
    pub laws : IsTable m look
    pub add_alike :
        (name : String) (id start count : ℕ) (type : G) (t u t' : T)
        → Alike t u
        → m.add_partition_at name id start count type t ≡ ok t'
        → (u' : T) × (m.add_partition_at name id start count type u ≡ ok u') × (frame t' ≡ frame u')
    pub remove_alike :
        (id : ℕ) (t u : T)
        → Alike t u
        → frame (m.remove_partition id t) ≡ frame (m.remove_partition id u)
    pub created_empty :
        (b : Bool) (w v : W) (t : T)
        → m.create_from_device b w ≡ done t v
        → (j : ℕ) → look t j ≡ none
    pub created_frame :
        (b c : Bool) (v w v' w' : W) (t u : T)
        → device_size m v ≡ device_size m w
        → m.create_from_device b v ≡ done t v'
        → m.create_from_device c w ≡ done u w'
        → frame t ≡ frame u
    pub placed_alike : (t u : T) (w v : W) → m.write_inplace t w ≡ done u v → Alike u t
    pub opened_alike :
        (b c : Bool) (v w v' w' : W) (t u : T)
        → m.store v ≡ m.store w
        → m.open_from_device b v ≡ done t v'
        → m.open_from_device c w ≡ done u w'
        → Alike t u

  module _ (r : IsAnswering m) (k : IsConsistent) where
    -- How a write makes a table: for a device of the size that it was.
    made_table :
        (d : BlockDevice) (w v : W) (t : T)
        → 2 * 1024 * 1024 ≤ device_size m w
        → open_table m true d true w ≡ done t v
        → (x y : W) × (t0 : T) × (m.create_from_device true x ≡ done t0 y)
          × (m.write_inplace t0 y ≡ done t v)
          × (device_size m x ≡ device_size m w)
    unfolding open_table zero_disk_headers
    made_table d w v t room h =
        let (s, run, z) = zero_region-Zeroes 0 (2 * 1024 * 1024) (m.store w) (omega arith) in
        let (_, w1, e1, k1) = continue-done (on_store m zero_disk_headers w) _ t v h in
        let (_, w2, e2, k2) = continue-done (m.overwrite_lba0 (lb_size d) w1) _ t v k1 in
        let (t0, w3, made, k3) = continue-done (m.create_from_device true w2) _ t v k2 in
        let (w2', e2', sizes) = r.overwritten (lb_size d) w1 in
        let first : w1 ≡ m.put s w = same_end e1 (on_store-done m r zero_disk_headers w s run) in
        (
          w2,
          w3,
          t0,
          made,
          k3,
          ap (device_size m) (same_end e2 e2')
              ∙ sizes
              ∙ ap (device_size m) first
              ∙ ap Store.size (r.stored s w)
              ∙ z.same_size,
        )

    -- The table for a simulation and the one for a write.
    open_table-Alike :
        (wipe : Bool) (d : BlockDevice) (v w v' w' : W) (t u : T)
        → 2 * 1024 * 1024 ≤ device_size m w
        → m.store v ≡ m.store w
        → open_table m wipe d false v ≡ done t v'
        → open_table m wipe d true w ≡ done u w'
        → Alike t u
    unfolding open_table
    open_table-Alike false d v w v' w' t u room s e f =
        k.opened_alike false true v w v' w' t u s e f
    open_table-Alike true d v w v' w' t u room s e f =
        let (x, y, t0, made, placed, sizes) = made_table d w w' u room f in
        let (same, frames) = k.placed_alike t0 u y w' placed in
        (
          λ j. k.created_empty false v v' t e j ∙ sym (same j ∙ k.created_empty true x y t0 made j),
          k.created_frame false true v x v' y t t0 (ap Store.size s ∙ sym sizes) e made
              ∙ sym frames,
        )

module _ {W T G U F : Type 0} (m : Machine W T G) (look : T → ℕ → Option (ℕ × ℕ)) (frame : T → F)
    (k : IsConsistent m look frame) where
  apply_change-Alike :
      (c : Change (PartitionAttributes G U)) (t u t' : T)
      → Alike m look frame t u
      → apply_change m c t ≡ ok t'
      → (u' : T) × (apply_change m c u ≡ ok u') × Alike m look frame t' u'
  unfolding apply_change
  apply_change-Alike (delete_partition i id) t u t' s e = (
    m.remove_partition id u,
    refl,
    (
      λ j.
          ap (λ x. look x j) (sym (ok-inj e))
          ∙ k.laws.look-remove id t j
          ∙ ap (λ x. if id == j then none else x) (s.0 j)
          ∙ sym (k.laws.look-remove id u j),
      ap frame (sym (ok-inj e)) ∙ k.remove_alike id t u s,
    ),
  )
  apply_change-Alike (add_partition start end id a) t u t' s e =
      let (ty, name) = type_and_name m a in
      let (first, count) = lba_range start end in
      let (u', f, frames) = k.add_alike name id first count ty t u t' s e in
      (
        u',
        f,
        (
          λ j.
              k.laws.look-add name id first count ty t t' e j
              ∙ ap (λ x. if id == j then some (first, count) else x) (s.0 j)
              ∙ sym (k.laws.look-add name id first count ty u u' f j),
          frames,
        ),
      )

  apply_each-Alike :
      (cs : List (Change (PartitionAttributes G U))) (t u t' : T)
      → Alike m look frame t u
      → apply_each m cs t ≡ ok t'
      → (u' : T) × (apply_each m cs u ≡ ok u')
  unfolding apply_each
  apply_each-Alike [] t u t' s e = (u, refl)
  apply_each-Alike (c ∷ cs) t u t' s e = elim (Result-cases (apply_change m c t)) [
    | inl (x, bad) ↦ absurd (err≢ok (rw (bad, apply_each) at e))
    | inr (t1, good) ↦
        let (u1, f, s1) = apply_change-Alike c t u t1 s good in
        let (u', g) = apply_each-Alike cs t1 u1 t' s1 (rw (good, apply_each) at e) in
        (u', rw (f, apply_each) g)
  ]

-- What a successful run of the changes in memory has passed.
in_memory-done :
    {L T W : Type 0} (o : Option L) (q : Result WriteError T) (w v : W)
    → elim o [ none ↦ panic | some l ↦ continue (lift q w) (λ t x. done tt x) ] ≡ done tt v
    → (l : L) × (t : T) × (o ≡ some l) × (q ≡ ok t)
in_memory-done none q w v h = absurd (panic≢done h)
in_memory-done (some l) (ok t) w v h = (l, t, refl, refl)
in_memory-done (some l) (err e) w v h = absurd (fail≢done h)

module _ {W T G U : Type 0} (m : Machine W T G) where
  simulate-passed :
      (d : BlockDevice) (p : Planner (PartitionAttributes G U)) (w v : W)
      → simulate m d p w ≡ done tt v
      → (validate_changes p ≡ ok tt)
        × (l : List (Region (PartitionAttributes G U))) × (t u : T) × (w1 w2 : W) × (m.open_file
              false w
            ≡ done tt w1)
        × (open_table m p.wipe_disk d false w1 ≡ done t w2)
        × (current_layout p ≡ some l)
        × (apply_each m p.changes t ≡ ok u)
  unfolding simulate apply_changes
  simulate-passed d p w v h =
      let (_, w1, e, k) = continue-done (m.open_file false w) _ tt v h in
      let (x, run, _) = dropped-done m _ v k in
      let (_, w1', f, n) = continue-done (lift (validate_changes p) w1) _ tt x run in
      let (valid, same) = lift-done (validate_changes p) tt w1 w1' f in
      let (t, w2, opened, rest) = continue-done (open_table m p.wipe_disk d false w1') _ tt x n in
      let (l, u, laid, q) =
        in_memory-done (current_layout p) (apply_each m p.changes t) w2 x rest in
      (
        valid,
        l,
        t,
        u,
        w1',
        w2,
        subst (λ x. m.open_file false w ≡ done tt x) same e,
        opened,
        laid,
        q,
      )

  module _ (r : IsAnswering m) where
    -- A write succeeds if the changes can be made in the table that it opens.
    write-succeeds :
        (d : BlockDevice) (p : Planner (PartitionAttributes G U))
        (l : List (Region (PartitionAttributes G U))) (w : W)
        → 2 * 1024 * 1024 ≤ device_size m w
        → device_size m w < u64_mod
        → validate_changes p ≡ ok tt
        → current_layout p ≡ some l
        → All (IsOn (device_size m w)) (zero_regions p.changes)
        → ((t : T) (w1 w2 : W)
            → m.store w1 ≡ m.store w
            → open_table m p.wipe_disk d true w1 ≡ done t w2
            → (u : T) × (apply_each m p.changes t ≡ ok u))
        → (v : W) × (write m d p w ≡ done tt v)
          × All (HasZeroPrefix (m.store v)) (zero_regions p.changes)
    write-succeeds d p l w room bounded valid laid on accepted =
        let (w0, e0, k0) = r.opened true w in
        let (w1, e1, k1) = remove-done m r w0 in
        let before : m.store w1 ≡ m.store w = k1 ∙ k0 in
        let same : device_size m w1 ≡ device_size m w = ap Store.size before in
        let (t, w2, e2, k2) = open_table-done m r p.wipe_disk d w1 (omega (arith, same)) in
        let sizes : device_size m w2 ≡ device_size m w = k2 ∙ same in
        let (u, q) = accepted t w1 w2 before e2 in
        let (v, e3, zeros) =
          commit-done m r u (zero_regions p.changes) w2 (omega arith)
            (subst (λ n. All (IsOn n) (zero_regions p.changes)) (sym sizes) on) in
        let (x, e4, k4) = r.flushed v in
        (
          m.close_file x,
          write-through m r d p w w0 e0 valid
              ∙ ap (λ (o : Outcome WriteError W Unit). dropped m (continue o (λ _. m.flush)))
                  (apply_changes-succeeds m r d p l w0 w1 w2 v t u laid e1 e2 q e3)
              ∙ ap (dropped m) e4,
          subst (λ s. All (HasZeroPrefix s) (zero_regions p.changes)) (sym (r.closed_same x ∙ k4))
              zeros,
        )

    -- Take a machine that answers all calls and whose calls for reading keep the device's contents,
    -- on a device of 2 MiB at least and of less than 2 ^ 64 bytes, and changes whose added regions
    -- lie on the device. Let its tables be as the gpt crate documents them: the partitions and the
    -- frame of the header, its usable blocks and its number of entries, determine what can be added;
    -- the frame of a created table is determined by the device's size. If the simulation succeeds,
    -- then the write that follows it succeeds as well, and then the first 2 MiB of each added region,
    -- or all of a smaller one, are zero.
    pub simulate-predicts :
        {F : Type 0} (look : T → ℕ → Option (ℕ × ℕ)) (frame : T → F) (d : BlockDevice)
        (p : Planner (PartitionAttributes G U)) (w v : W)
        → IsReadOnly m
        → IsConsistent m look frame
        → 2 * 1024 * 1024 ≤ device_size m w
        → device_size m w < u64_mod
        → All (IsOn (device_size m w)) (zero_regions p.changes)
        → simulate m d p w ≡ done tt v
        → (v' : W) × (write m d p v ≡ done tt v')
          × All (HasZeroPrefix (m.store v')) (zero_regions p.changes)
    simulate-predicts look frame d p w v still k room bounded on h =
        let (valid, l, t, u, w1, w2, e, opened, laid, q) = simulate-passed d p w v h in
        let kept : m.store v ≡ m.store w =
          subst (λ o. Keeps m.store o w) h (simulate-Keeps m d p w still) in
        let first : m.store w1 ≡ m.store w =
          subst (λ o. Keeps m.store o w) e (still.open_keeps w w refl) in
        let same : device_size m v ≡ device_size m w = ap Store.size kept in
        write-succeeds d p l v (omega arith) (omega arith) valid laid
          (subst (λ n. All (IsOn n) (zero_regions p.changes)) (sym same) on)
          (λ t' x y s f.
            let sizes : device_size m x ≡ device_size m v = ap Store.size s in
            apply_each-Alike m look frame k p.changes t t' u
              (open_table-Alike m look frame r k p.wipe_disk d w1 x w2 y t t' (omega arith)
                (first ∙ sym kept ∙ sym s) opened f)
              q)
