-- ===== src/Writer/Simulation.antt =====
-- Simulation, and the blocks of an added partition: crates/partitioning/src/writer.rs.
use disks_rs.Base.{
  ℕ, ◌+◌, ◌*◌, ◌%◌, ◌≤◌, ◌<◌, ◌≡◌, refl, ◌∙◌, arith, Bool, true, false, Option, none, some, Result,
  ok, err, Outcome, Exec, done, fail, panic, continue, lift, sub64-eq, u64_mod,
}
use disks_rs.Disks.{BlockDevice}
use disks_rs.Attributes.{PartitionAttributes}
use disks_rs.Planner.{Planner, current_layout}
use disks_rs.Writer.{sector_size}
use disks_rs.Writer.Changes.{
  WriteError, Machine, dropped, lba_range, open_table, apply_each, apply_changes, validate_changes,
  simulate,
}

module _ {E W S : Type 0} (store : W → S) where
  -- Whatever the call comes to, it leaves the device's contents as they were.
  abbrev pub Keeps : {A : Type 0} → Outcome E W A → W → Type 0
  Keeps (done a w') w = store w' ≡ store w
  Keeps (fail e w') w = store w' ≡ store w
  Keeps panic w = Unit

  Keeps-continue :
      {A B : Type 0} (o : Outcome E W A) (f : A → Exec E W B) (w : W)
      → Keeps o w
      → ((a : A) (v : W) → store v ≡ store w → Keeps (f a v) w)
      → Keeps (continue o f) w
  Keeps-continue (done a v) f w h k = k a v h
  Keeps-continue (fail e v) f w h k = h
  Keeps-continue panic f w h k = tt

  Keeps-lift : {A : Type 0} (r : Result E A) (v w : W) → store v ≡ store w → Keeps (lift r v) w
  Keeps-lift (ok a) v w h = h
  Keeps-lift (err e) v w h = h

module _ {W T G : Type 0} (m : Machine W T G) where
  -- Reading calls of the machine leave the device's contents as they were.
  pub record IsReadOnly : Type 0 where
    pub open_keeps : (v w : W) → m.store v ≡ m.store w → Keeps m.store (m.open_file false v) w
    pub close_keeps : (w : W) → m.store (m.close_file w) ≡ m.store w
    pub create_keeps :
        (v w : W) → m.store v ≡ m.store w → Keeps m.store (m.create_from_device false v) w
    pub table_keeps :
        (v w : W) → m.store v ≡ m.store w → Keeps m.store (m.open_from_device false v) w

  open_table-Keeps :
      (wipe : Bool) (d : BlockDevice) (v w : W)
      → IsReadOnly
      → m.store v ≡ m.store w
      → Keeps m.store (open_table m wipe d false v) w
  unfolding open_table
  open_table-Keeps true d v w r h = r.create_keeps v w h
  open_table-Keeps false d v w r h = r.table_keeps v w h

  dropped-Keeps :
      (o : Outcome WriteError W Unit) (w : W)
      → IsReadOnly
      → Keeps m.store o w
      → Keeps m.store (dropped m o) w
  dropped-Keeps (done a v) w r h = r.close_keeps v ∙ h
  dropped-Keeps (fail e v) w r h = r.close_keeps v ∙ h
  dropped-Keeps panic w r h = tt

abbrev finished : {W : Type 0} → Exec WriteError W Unit
finished u = done tt u

-- The change of the table in memory.
in_memory-Keeps :
    {L T W S : Type 0} (store : W → S) (o : Option L) (r : Result WriteError T) (v w : W)
    → store v ≡ store w
    → Keeps store (elim o [ none ↦ panic | some l ↦ continue (lift r v) (λ t u. finished u) ]) w
in_memory-Keeps store none r v w h = tt
in_memory-Keeps store (some l) r v w h =
    Keeps-continue store (lift r v) _ w (Keeps-lift store r v w h) (λ t u e. e)

module _ {W T G U : Type 0} (m : Machine W T G) where
  apply_changes-Keeps :
      (d : BlockDevice) (p : Planner (PartitionAttributes G U)) (v w : W)
      → IsReadOnly m
      → m.store v ≡ m.store w
      → Keeps m.store (apply_changes m d p false v) w
  unfolding apply_changes
  apply_changes-Keeps d p v w r h =
      Keeps-continue m.store (open_table m p.wipe_disk d false v) _ w
        (open_table-Keeps m p.wipe_disk d v w r h)
        (λ t u e. in_memory-Keeps m.store (current_layout p) (apply_each m p.changes t) u w e)

  -- A simulation, whatever it comes to, leaves the device's contents as they were, if opening the
  -- device and its table for reading does.
  pub simulate-Keeps :
      (d : BlockDevice) (p : Planner (PartitionAttributes G U)) (w : W)
      → IsReadOnly m
      → Keeps m.store (simulate m d p w) w
  unfolding simulate
  simulate-Keeps d p w r =
      Keeps-continue m.store (m.open_file false w) _ w (r.open_keeps w w refl) (λ _ v h.
        dropped-Keeps m _ w r (
          Keeps-continue m.store (lift (validate_changes p) v) _ w
            (Keeps-lift m.store (validate_changes p) v w h)
            (λ _ u e. apply_changes-Keeps d p u w r e)))

-- The blocks of an added partition, by which the table is changed, are those of its bytes, if its
-- bounds are in order, below 2 ^ 64 and multiples of the block size.
pub lba-exact :
    (start end : ℕ)
    → start ≤ end
    → end < u64_mod
    → start % sector_size ≡ 0
    → end % sector_size ≡ 0
    → ((lba_range start end).0 * sector_size ≡ start)
      × (((lba_range start end).0 + (lba_range start end).1) * sector_size ≡ end)
unfolding lba_range
lba-exact start end le fits s e = (omega arith, omega (arith, sub64-eq end start le fits))
