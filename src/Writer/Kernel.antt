-- ===== src/Writer/Kernel.antt =====
-- The calls by which the kernel's partitions are brought in line with the table:
-- crates/partitioning/src/blkpg.rs, `sync_gpt_partitions`.
use mathlib.Core.List.{append-nil, append_assoc, map}
use disks_rs.Base.{
  ℕ, ◌+◌, ◌-◌, ◌*◌, ◌≤◌, ◌<◌, ◌^◌, ◌≡◌, refl, sym, ap, ◌∙◌, arith, true, false, some, List, [], ◌∷◌,
  ◌++◌, All, ok, done, continue, lift, add64, sub64, mul64, add64-eq, sub64-eq, mul64-eq,
}
use disks_rs.Disks.{Partition, BasicDisk}
use disks_rs.Writer.Blkpg
use disks_rs.Writer.Blkpg.{BlkpgIoctl, request, answer, blkpg_add_partition, blkpg_del_partition}
use disks_rs.Writer.Changes.{
  Machine, Entry, delete_each, add_each, dropped, as_blkpg, remove_kernel_partitions,
  create_kernel_partitions, sync_gpt_partitions,
}

-- An entry of a table of fewer than 2 ^ 54 blocks.
abbrev pub IsInRange : Entry → Type 0
IsInRange e = (e.first_lba ≤ e.last_lba) × (e.last_lba < 2 ^ 54)

-- The call that a partition's deletion makes, and the one that an entry's addition makes.
abbrev pub deletion : Partition → BlkpgIoctl
deletion p = request blkpg_del_partition p.number 0 0

abbrev pub addition : Entry → BlkpgIoctl
addition e =
    request blkpg_add_partition e.number (e.first_lba * 512) ((e.last_lba - e.first_lba + 1) * 512)

module _ {W T G : Type 0} (m : Machine W T G) (calls : W → List BlkpgIoctl) where
  -- A machine that answers all calls and keeps their record: opening the device succeeds and the
  -- device's disk and table can be read at any time.
  pub record IsRecording (d : BasicDisk) (es : List Entry) : Type 0 where
    pub opened : (w : W) → (v : W) × (m.open_file false w ≡ done tt v) × (calls v ≡ calls w)
    pub closed : (w : W) → calls (m.close_file w) ≡ calls w
    pub answered : (x : BlkpgIoctl) (w : W) → (m.ioctl x w).0 ≡ true
    pub recorded : (x : BlkpgIoctl) (w : W) → calls (m.ioctl x w).1 ≡ calls w ++ x ∷ []
    pub disk_read : (w : W) → m.sysfs_disk w ≡ some d
    pub table_read : (w : W) → m.gpt_entries w ≡ ok es

  module _ (d : BasicDisk) (es : List Entry) (r : IsRecording d es) where
    delete-recorded :
        (p : Partition) (w : W)
        → Blkpg.delete_partition m.ioctl p.number w ≡ done tt (m.ioctl (deletion p) w).1
    unfolding Blkpg.delete_partition
    delete-recorded p w = ap (λ b. answer b (m.ioctl (deletion p) w).1) (r.answered (deletion p) w)

    add-recorded :
        (e : Entry) (w : W)
        → IsInRange e
        → as_blkpg m (
            Blkpg.add_partition m.ioctl e.number
              (mul64 e.first_lba 512)
              (mul64 (add64 (sub64 e.last_lba e.first_lba) 1) 512)
              w)
          ≡ done tt (m.ioctl (addition e) w).1
    unfolding Blkpg.add_partition
    add-recorded e w h =
        let n = e.last_lba - e.first_lba in
        let start : mul64 e.first_lba 512 ≡ e.first_lba * 512 =
          mul64-eq e.first_lba 512 (omega arith) in
        let span : mul64 (add64 (sub64 e.last_lba e.first_lba) 1) 512 ≡ (n + 1) * 512 =
          ap (λ k. mul64 (add64 k 1) 512) (sub64-eq e.last_lba e.first_lba h.0 (omega arith))
          ∙ ap (λ k. mul64 k 512) (add64-eq n 1 (omega arith))
          ∙ mul64-eq (n + 1) 512 (omega arith) in
        let call = λ (s : ℕ) (l : ℕ). m.ioctl (request blkpg_add_partition e.number s l) w in
        ap
          (λ s. as_blkpg m (
            answer (call s (mul64 (add64 (sub64 e.last_lba e.first_lba) 1) 512)).0
              (call s (mul64 (add64 (sub64 e.last_lba e.first_lba) 1) 512)).1))
          start
        ∙ ap
            (λ l. as_blkpg m (answer (call (e.first_lba * 512) l).0 (call (e.first_lba * 512) l).1))
            span
        ∙ ap (λ b. as_blkpg m (answer b (m.ioctl (addition e) w).1)) (r.answered (addition e) w)

    delete_each-recorded :
        (ps : List Partition) (w : W)
        → (v : W) × (delete_each m ps w ≡ done tt v) × (calls v ≡ calls w ++ map deletion ps)
    unfolding delete_each
    delete_each-recorded [] w = (w, refl, sym (append-nil (calls w)))
    delete_each-recorded (p ∷ ps) w =
        let w1 = (m.ioctl (deletion p) w).1 in
        let (v, e, k) = delete_each-recorded ps w1 in
        (
          v,
          rw (delete-recorded p w, delete_each) e,
          k
              ∙ ap (λ l. l ++ map deletion ps) (r.recorded (deletion p) w)
              ∙ append_assoc (calls w) (deletion p ∷ []) (map deletion ps),
        )

    add_each-recorded :
        (entries : List Entry) (w : W)
        → All IsInRange entries
        → (v : W) × (add_each m entries w ≡ done tt v) × (calls v ≡ calls w ++ map addition entries)
    unfolding add_each
    add_each-recorded [] w h = (w, refl, sym (append-nil (calls w)))
    add_each-recorded (e ∷ es) w h =
        let w1 = (m.ioctl (addition e) w).1 in
        let (v, q, k) = add_each-recorded es w1 h.1 in
        (
          v,
          rw (add-recorded e w h.0, add_each) q,
          k
              ∙ ap (λ l. l ++ map addition es) (r.recorded (addition e) w)
              ∙ append_assoc (calls w) (addition e ∷ []) (map addition es),
        )

    remove-recorded :
        (w : W)
        → (v : W) × (remove_kernel_partitions m w ≡ done tt v)
          × (calls v ≡ calls w ++ map deletion d.partitions)
    unfolding remove_kernel_partitions
    remove-recorded w =
        let (w1, e, same) = r.opened w in
        let (v, q, k) = delete_each-recorded d.partitions w1 in
        (
          m.close_file v,
          rw (e, continue) (rw (r.disk_read w1) (ap (λ o. as_blkpg m (dropped m o)) q)),
          r.closed v ∙ k ∙ ap (λ l. l ++ map deletion d.partitions) same,
        )

    create-recorded :
        (w : W)
        → All IsInRange es
        → (v : W) × (create_kernel_partitions m w ≡ done tt v)
          × (calls v ≡ calls w ++ map addition es)
    unfolding create_kernel_partitions
    create-recorded w h =
        let (w1, e, same) = r.opened w in
        let (v, q, k) = add_each-recorded es w1 h in
        (
          m.close_file v,
          rw (e, continue)
              (rw (r.table_read w1, lift, continue) (ap (λ o. as_blkpg m (dropped m o)) q)),
          r.closed v ∙ k ∙ ap (λ l. l ++ map addition es) same,
        )

    -- On a machine that answers all calls, with a table of fewer than 2 ^ 54 blocks whose entries
    -- do not end before they start, the synchronisation succeeds, and the calls that it makes are
    -- the deletion of each partition of the disk and then the addition of each entry of the table,
    -- from its first byte and with the number of its bytes.
    pub sync_gpt_partitions-calls :
        (w : W)
        → All IsInRange es
        → (v : W) × (sync_gpt_partitions m w ≡ done tt v)
          × (calls v ≡ (calls w ++ map deletion d.partitions) ++ map addition es)
    unfolding sync_gpt_partitions
    sync_gpt_partitions-calls w h =
        let (w1, e, k) = remove-recorded w in
        let (v, q, l) = create-recorded w1 h in
        (v, rw (e, continue) q, l ∙ ap (λ c. c ++ map addition es) k)
