-- ===== src/Writer/Progress.antt =====
-- Writes on a machine that answers all calls: crates/partitioning/src/writer.rs, `write`.
use disks_rs.Base.{
  ℕ, ◌+◌, ◌-◌, ◌*◌, ◌≤◌, ◌<◌, ◌≡◌, refl, sym, ap, ◌∙◌, arith, inl, inr, ◌⊎◌, subst, Bool, true,
  false, some, List, [], ◌∷◌, All, Result, Result-cases, ok, err, done, fail, continue, lift, min,
  sub64, sub64-eq, u64_mod, leb, leb→le, leb→gt, Bool-cases, Outcome,
}
use disks_rs.Disks.{BlockDevice}
use disks_rs.Attributes.{PartitionAttributes}
use disks_rs.Planner.{Planner, Region, current_layout}
use disks_rs.Writer.{Store, IoError, zero_partition_prefix, zero_disk_headers}
use disks_rs.Writer.Zeroing.{Zeroes, zero_region-Zeroes, zero_partition_prefix-Zeroes}
use disks_rs.Writer.Changes.{
  WriteError, Machine, dropped, on_store, zero_each, zero_regions, open_table, lb_size, commit,
  apply_each, apply_changes, validate_changes, write, remove_kernel_partitions,
}
use disks_rs.Writer.Answers.{device_size, IsAnswering, remove-done, create-done}

-- A region of a device of a size.
abbrev pub IsOn : ℕ → ℕ × ℕ → Type 0
IsOn size (s, e) = (s ≤ e) × (e ≤ size)

-- The bytes that the writer zeroes in a region: its first 2 MiB, or all of a smaller one.
abbrev pub HasZeroPrefix : Store → ℕ × ℕ → Type 0
HasZeroPrefix t (s, e) = (i : ℕ) → s ≤ i → i < s + min (e - s) (2 * 1024 * 1024) → t.byte i ≡ 0

order : (a i : ℕ) → a ≤ i ⊎ i < a
order a i = elim (Bool-cases (leb a i)) [ inl e ↦ inl (leb→le a i e) | inr e ↦ inr (leb→gt a i e) ]

-- Zeros stay.
Zeroes-kept : (at n : ℕ) (s t : Store) → Zeroes at n s t → (i : ℕ) → s.byte i ≡ 0 → t.byte i ≡ 0
Zeroes-kept at n s t z i h = elim (order at i) [
  | inr g ↦ z.outside i (inl g) ∙ h
  | inl g ↦ elim (order (at + n) i) [ inl k ↦ z.outside i (inr k) ∙ h | inr k ↦ z.inside i g k ]
]

module _ {W T G : Type 0} (m : Machine W T G) (r : IsAnswering m) where
  pub on_store-done :
      (f : Store → Outcome IoError Store Unit) (w : W) (t : Store)
      → f (m.store w) ≡ done tt t
      → on_store m f w ≡ done tt (m.put t w)
  on_store-done f w t h = simp (h, on_store) refl

  zero_each-step :
      (s e n : ℕ) (rs : List (ℕ × ℕ)) (w v : W) (t : Store)
      → sub64 e s ≡ n
      → zero_partition_prefix s n (m.store w) ≡ done tt t
      → zero_each m rs (m.put t w) ≡ done tt v
      → zero_each m ((s, e) ∷ rs) w ≡ done tt v
  zero_each-step s e n rs w v t span run rest =
      ap (λ k. continue (on_store m (zero_partition_prefix s k) w) (λ _. zero_each m rs)) span
      ∙ ap (λ o. continue o (λ _. zero_each m rs))
          (on_store-done (zero_partition_prefix s n) w t run)
      ∙ rest

  zero_each-done :
      (rs : List (ℕ × ℕ)) (w : W)
      → device_size m w < u64_mod
      → All (IsOn (device_size m w)) rs
      → (v : W) × (zero_each m rs w ≡ done tt v)
        × ((i : ℕ) → (m.store w).byte i ≡ 0 → (m.store v).byte i ≡ 0)
        × All (HasZeroPrefix (m.store v)) rs
  zero_each-done [] w bounded h = (w, refl, (λ i e. e), tt)
  zero_each-done ((s, e) ∷ rs) w bounded ((le, on), more) =
      let span : sub64 e s ≡ e - s = sub64-eq e s le (omega arith) in
      let (t, run, z, _) = zero_partition_prefix-Zeroes s (e - s) (m.store w) (omega arith) in
      let w1 = m.put t w in
      let same : m.store w1 ≡ t = r.stored t w in
      let sizes : device_size m w1 ≡ device_size m w = ap Store.size same ∙ z.same_size in
      let (v, rest, kept, prefixes) =
        zero_each-done rs w1 (omega arith) (subst (λ n. All (IsOn n) rs) (sym sizes) more) in
      (
        v,
        zero_each-step s e (e - s) rs w v t span run rest,
        λ i q. kept i (
            ap (λ (x : Store). x.byte i) same
            ∙ Zeroes-kept s (min (e - s) (2 * 1024 * 1024)) (m.store w) t z i q),
        (λ i a b. kept i (ap (λ (x : Store). x.byte i) same ∙ z.inside i a b), prefixes),
      )

  -- Opening or creating the table.
  pub open_table-done :
      (wipe : Bool) (d : BlockDevice) (w : W)
      → 2 * 1024 * 1024 ≤ device_size m w
      → (t : T) × (v : W) × (open_table m wipe d true w ≡ done t v)
        × (device_size m v ≡ device_size m w)
  unfolding open_table zero_disk_headers
  open_table-done false d w room = r.table_opened true w
  open_table-done true d w room =
      let (s, run, z) = zero_region-Zeroes 0 (2 * 1024 * 1024) (m.store w) (omega arith) in
      let w1 = m.put s w in
      let (w2, e2, k2) = r.overwritten (lb_size d) w1 in
      let (t, w3, e3, k3) = r.created true w2 in
      let (u, v, e4, k4) = r.placed t w3 in
      (
        u,
        v,
        rw (on_store-done zero_disk_headers w s run, continue)
            (rw (e2, continue) (rw (e3, continue) e4)),
        k4 ∙ k3 ∙ k2 ∙ ap Store.size (r.stored s w) ∙ z.same_size,
      )

  pub commit-done :
      (t : T) (rs : List (ℕ × ℕ)) (w : W)
      → device_size m w < u64_mod
      → All (IsOn (device_size m w)) rs
      → (v : W) × (commit m t rs w ≡ done tt v) × All (HasZeroPrefix (m.store v)) rs
  unfolding commit
  commit-done t rs w bounded on =
      let (w1, e1, k1) = r.written t w in
      let (w2, e2, k2) = r.synced w1 in
      let sizes : device_size m w2 ≡ device_size m w = k2 ∙ k1 in
      let (w3, e3, _, zeros) =
        zero_each-done rs w2 (omega arith) (subst (λ n. All (IsOn n) rs) (sym sizes) on) in
      let (v, e4, k4) = create-done m r w3 in
      (
        v,
        rw (e1, continue) (rw (e2, continue) (rw (e3, continue) e4)),
        subst (λ s. All (HasZeroPrefix s) rs) (sym k4) zeros,
      )

module _ {W T G U : Type 0} (m : Machine W T G) (r : IsAnswering m) where
  -- What a write comes to, by what becomes of the changes in the opened table.
  abbrev pub Ends :
      BlockDevice → Planner (PartitionAttributes G U) → W → T → Result WriteError T → Type 0
  Ends d p w t (err e) = (v : W) × (write m d p w ≡ fail e v)
  Ends d p w t (ok u) =
      (v : W) × (write m d p w ≡ done tt v)
      × All (HasZeroPrefix (m.store v)) (zero_regions p.changes)

  apply_changes-fails :
      (d : BlockDevice) (p : Planner (PartitionAttributes G U))
      (l : List (Region (PartitionAttributes G U))) (w w1 w2 : W) (t : T) (e : WriteError)
      → current_layout p ≡ some l
      → remove_kernel_partitions m w ≡ done tt w1
      → open_table m p.wipe_disk d true w1 ≡ done t w2
      → apply_each m p.changes t ≡ err e
      → apply_changes m d p true w ≡ fail e w2
  unfolding apply_changes
  apply_changes-fails d p l w w1 w2 t e laid removed opened q =
      rw (removed, continue) (rw (opened, continue) (rw laid (rw (q, lift, continue) refl)))

  pub apply_changes-succeeds :
      (d : BlockDevice) (p : Planner (PartitionAttributes G U))
      (l : List (Region (PartitionAttributes G U))) (w w1 w2 v : W) (t u : T)
      → current_layout p ≡ some l
      → remove_kernel_partitions m w ≡ done tt w1
      → open_table m p.wipe_disk d true w1 ≡ done t w2
      → apply_each m p.changes t ≡ ok u
      → commit m u (zero_regions p.changes) w2 ≡ done tt v
      → apply_changes m d p true w ≡ done tt v
  unfolding apply_changes
  apply_changes-succeeds d p l w w1 w2 v t u laid removed opened q committed =
      rw (removed, continue) (rw (opened, continue) (rw laid (rw (q, lift, continue) committed)))

  pub write-through :
      (d : BlockDevice) (p : Planner (PartitionAttributes G U)) (w w0 : W)
      → m.open_file true w ≡ done tt w0
      → validate_changes p ≡ ok tt
      → write m d p w ≡ dropped m (continue (apply_changes m d p true w0) (λ _. m.flush))
  unfolding write
  write-through d p w w0 e valid = rw (e, continue) (rw (valid, lift, continue) refl)

  -- On a machine that answers all calls, with a device of 2 MiB at least and of less than 2 ^ 64
  -- bytes, take changes that pass the validation, whose layout can be computed and whose added
  -- regions lie on the device. A write then ends as applying the changes to the opened table does:
  -- with the same error, or with success, and then the first 2 MiB of each added region, or all of
  -- a smaller one, are zero.
  pub write-Ends :
      (d : BlockDevice) (p : Planner (PartitionAttributes G U))
      (l : List (Region (PartitionAttributes G U))) (w : W)
      → 2 * 1024 * 1024 ≤ device_size m w
      → device_size m w < u64_mod
      → validate_changes p ≡ ok tt
      → current_layout p ≡ some l
      → All (IsOn (device_size m w)) (zero_regions p.changes)
      → (t : T) × (w1 w2 : W) × (open_table m p.wipe_disk d true w1 ≡ done t w2)
        × Ends d p w t (apply_each m p.changes t)
  write-Ends d p l w room bounded valid laid on =
      let (w0, e0, k0) = r.opened true w in
      let (w1, e1, k1) = remove-done m r w0 in
      let before : m.store w1 ≡ m.store w = k1 ∙ k0 in
      let same : device_size m w1 ≡ device_size m w = ap Store.size before in
      let (t, w2, e2, k2) = open_table-done m r p.wipe_disk d w1 (omega (arith, same)) in
      let sizes : device_size m w2 ≡ device_size m w = k2 ∙ same in
      let start = write-through d p w w0 e0 valid in
      let flushing = λ (o : Outcome WriteError W Unit). dropped m (continue o (λ _. m.flush)) in
      (
        t,
        w1,
        w2,
        e2,
        elim (Result-cases (apply_each m p.changes t)) [
          | inl (e, q) ↦ subst (Ends d p w t) (sym q) (
            m.close_file w2,
            start ∙ ap flushing (apply_changes-fails d p l w0 w1 w2 t e laid e1 e2 q),
          )
          | inr (u, q) ↦
              let (v, e3, zeros) =
                commit-done m r u (zero_regions p.changes) w2 (omega arith)
                  (subst (λ n. All (IsOn n) (zero_regions p.changes)) (sym sizes) on) in
              let (x, e4, k4) = r.flushed v in
              subst (Ends d p w t) (sym q) (
                m.close_file x,
                start
                    ∙ ap flushing (apply_changes-succeeds d p l w0 w1 w2 v t u laid e1 e2 q e3)
                    ∙ ap (dropped m) e4,
                subst (λ s. All (HasZeroPrefix s) (zero_regions p.changes))
                    (sym (r.closed_same x ∙ k4)) zeros,
              )
        ],
      )
