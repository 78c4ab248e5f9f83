-- ===== src/Writer/Frame.antt =====
-- What all operations of a machine keep, the writer keeps: crates/partitioning/src/writer.rs and
-- blkpg.rs.
use disks_rs.Base.{
  ℕ, Bool, true, false, Option, none, some, List, [], ◌∷◌, Result, ok, err, Outcome, Exec, done,
  fail, panic, continue, lift, mul64, add64, sub64,
}
use disks_rs.Disks.{BlockDevice, Partition, BasicDisk}
use disks_rs.Attributes.{PartitionAttributes}
use disks_rs.Planner.{Planner, Region, current_layout}
use disks_rs.Writer.{Store, IoError, zero_disk_headers, zero_partition_prefix}
use disks_rs.Writer.Blkpg
use disks_rs.Writer.Blkpg.{BlkpgIoctl, answer, request, blkpg_del_partition, blkpg_add_partition}
use disks_rs.Writer.Changes.{
  WriteError, Machine, Entry, dropped, with_file, on_store, as_blkpg, ignore, delete_each, add_each,
  remove_kernel_partitions, create_kernel_partitions, sync_gpt_partitions, zero_each, zero_regions,
  open_table, lb_size, commit, apply_each, apply_changes, validate_changes, simulate, write,
}

module _ {W : Type 0} (P : W → Type 0) where
  -- Whatever the call comes to, its state has the property; a panic leaves no state.
  abbrev pub Holds : {E A : Type 0} → Outcome E W A → Type 0
  Holds (done a w) = P w
  Holds (fail e w) = P w
  Holds panic = Unit

  pub Holds-continue :
      {E A B : Type 0} (o : Outcome E W A) (f : A → Exec E W B)
      → Holds o
      → ((a : A) (v : W) → P v → Holds (f a v))
      → Holds (continue o f)
  Holds-continue (done a v) f h k = k a v h
  Holds-continue (fail e v) f h k = h
  Holds-continue panic f h k = tt

  Holds-lift : {E A : Type 0} (r : Result E A) (w : W) → P w → Holds (lift r w)
  Holds-lift (ok a) w h = h
  Holds-lift (err e) w h = h

module _ {W T G : Type 0} (m : Machine W T G) (P : W → Type 0) where
  pub record Preserves : Type 0 where
    pub flush_kept : (w : W) → P w → Holds P (m.flush w)
    pub put_kept : (s : Store) (w : W) → P w → P (m.put s w)
    pub create_kept : (b : Bool) (w : W) → P w → Holds P (m.create_from_device b w)
    pub table_kept : (b : Bool) (w : W) → P w → Holds P (m.open_from_device b w)
    pub place_kept : (t : T) (w : W) → P w → Holds P (m.write_inplace t w)
    pub write_kept : (t : T) (w : W) → P w → Holds P (m.write t w)
    pub sync_kept : (w : W) → P w → Holds P (m.sync_all w)
    pub mbr_kept : (n : ℕ) (w : W) → P w → Holds P (m.overwrite_lba0 n w)
    pub ioctl_kept : (x : BlkpgIoctl) (w : W) → P w → P (m.ioctl x w).1

  module _ (k : Preserves) where
    on_store-Holds :
        (f : Store → Outcome IoError Store Unit) (w : W) → P w → Holds P (on_store m f w)
    on_store-Holds f w h =
        elim (f (m.store w))
          as (λ o. Holds P {E = WriteError} {A = Unit} (elim o [
            | done _ s ↦ done tt (m.put s w)
            | fail e s ↦ fail WriteError.io_error (m.put s w)
            | panic ↦ panic
          ])) [ done _ s ↦ k.put_kept s w h | fail e s ↦ k.put_kept s w h | panic ↦ tt ]

    answer-Holds : (b : Bool) (w : W) → P w → Holds P (answer b w)
    answer-Holds true w h = h
    answer-Holds false w h = h

    delete_each-Holds : (ps : List Partition) (w : W) → P w → Holds P (delete_each m ps w)
    unfolding delete_each Blkpg.delete_partition
    delete_each-Holds [] w h = h
    delete_each-Holds (p ∷ ps) w h =
        let x = request blkpg_del_partition p.number 0 0 in
        let rest = delete_each-Holds ps (m.ioctl x w).1 (k.ioctl_kept x w h) in
        elim (m.ioctl x w).0
          as (λ b. Holds P (ignore m (answer b (m.ioctl x w).1) (delete_each m ps))) [
            | true ↦ rest
            | false ↦ rest
          ]

    as_blkpg-Holds : (o : Outcome IoError W Unit) → Holds P o → Holds P (as_blkpg m o)
    as_blkpg-Holds (done _ w) h = h
    as_blkpg-Holds (fail e w) h = h
    as_blkpg-Holds panic h = tt

    add_each-Holds : (es : List Entry) (w : W) → P w → Holds P (add_each m es w)
    unfolding add_each Blkpg.add_partition
    add_each-Holds [] w h = h
    add_each-Holds (e ∷ es) w h =
        let x =
          request blkpg_add_partition e.number (mul64 e.first_lba 512)
            (mul64 (add64 (sub64 e.last_lba e.first_lba) 1) 512) in
        Holds-continue P (as_blkpg m (answer (m.ioctl x w).0 (m.ioctl x w).1)) (λ _. add_each m es)
          (as_blkpg-Holds (answer (m.ioctl x w).0 (m.ioctl x w).1)
            (answer-Holds (m.ioctl x w).0 (m.ioctl x w).1 (k.ioctl_kept x w h)))
          (λ _ v q. add_each-Holds es v q)

    read_disk-Holds :
        (o : Option BasicDisk) (w : W)
        → P w
        → Holds P
            (elim o [ none ↦ fail WriteError.blkpg w | some d ↦ delete_each m d.partitions w ])
    read_disk-Holds none w h = h
    read_disk-Holds (some d) w h = delete_each-Holds d.partitions w h

    zero_each-Holds : (rs : List (ℕ × ℕ)) (w : W) → P w → Holds P (zero_each m rs w)
    zero_each-Holds [] w h = h
    zero_each-Holds (r ∷ rs) w h =
        Holds-continue P (on_store m (zero_partition_prefix r.0 (sub64 r.1 r.0)) w) _
          (on_store-Holds (zero_partition_prefix r.0 (sub64 r.1 r.0)) w h)
          (λ _ v q. zero_each-Holds rs v q)

    pub open_table-Holds :
        (wipe : Bool) (d : BlockDevice) (writable : Bool) (w : W)
        → P w
        → Holds P (open_table m wipe d writable w)
    unfolding open_table
    open_table-Holds false d writable w h = k.table_kept writable w h
    open_table-Holds true d false w h = k.create_kept false w h
    open_table-Holds true d true w h =
        Holds-continue P (on_store m zero_disk_headers w) _ (on_store-Holds zero_disk_headers w h)
          (λ _ v q.
            Holds-continue P (m.overwrite_lba0 (lb_size d) v) _ (k.mbr_kept (lb_size d) v q)
              (λ _ u r.
                Holds-continue P (m.create_from_device true u) _ (k.create_kept true u r)
                  (λ t x s. k.place_kept t x s)))

-- A property that goes by the open files, the last one first.
module _ {W : Type 0} (P : List ℕ → W → Type 0) where
  -- What an attempt to open a file comes to: one file more, or none.
  abbrev pub Opens : List ℕ → Outcome WriteError W Unit → Type 0
  Opens l (done _ v) = (fd : ℕ) × P (fd ∷ l) v
  Opens l (fail e v) = P l v
  Opens l panic = Unit

module _ {W T G : Type 0} (m : Machine W T G) (P : List ℕ → W → Type 0) where
  pub record IsScoped : Type 0 where
    pub opens : (b : Bool) (l : List ℕ) (w : W) → P l w → Opens P l (m.open_file b w)
    pub closes : (fd : ℕ) (l : List ℕ) (w : W) → P (fd ∷ l) w → P l (m.close_file w)
    pub kept : (l : List ℕ) → Preserves m (P l)

  module _ (k : IsScoped) where
    dropped-Holds :
        (fd : ℕ) (l : List ℕ) (o : Outcome WriteError W Unit)
        → Holds (P (fd ∷ l)) o
        → Holds (P l) (dropped m o)
    dropped-Holds fd l (done _ v) h = k.closes fd l v h
    dropped-Holds fd l (fail e v) h = k.closes fd l v h
    dropped-Holds fd l panic h = tt

    opened-Holds :
        (l : List ℕ) (o : Outcome WriteError W Unit) (rest : Exec WriteError W Unit)
        → Opens P l o
        → ((fd : ℕ) (v : W) → P (fd ∷ l) v → Holds (P (fd ∷ l)) (rest v))
        → Holds (P l) (continue o (λ _ v. dropped m (rest v)))
    opened-Holds l (done _ v) rest h f = dropped-Holds h.0 l (rest v) (f h.0 v h.1)
    opened-Holds l (fail e v) rest h f = h
    opened-Holds l panic rest h f = tt

    -- The scope of a file.
    with_file-Holds :
        (b : Bool) (rest : Exec WriteError W Unit) (l : List ℕ) (w : W)
        → P l w
        → ((fd : ℕ) (v : W) → P (fd ∷ l) v → Holds (P (fd ∷ l)) (rest v))
        → Holds (P l) (with_file m b rest w)
    with_file-Holds b rest l w h f = opened-Holds l (m.open_file b w) rest (k.opens b l w h) f

    converted-Holds :
        (l : List ℕ) (o : Outcome WriteError W Unit) → Holds (P l) o → Holds (P l) (as_blkpg m o)
    converted-Holds l (done _ v) h = h
    converted-Holds l (fail e v) h = h
    converted-Holds l panic h = tt

    remove-Holds : (l : List ℕ) (w : W) → P l w → Holds (P l) (remove_kernel_partitions m w)
    unfolding remove_kernel_partitions
    remove-Holds l w h = converted-Holds l (with_file m false _ w) (
        with_file-Holds false _ l w h
          (λ fd v q. read_disk-Holds m (P (fd ∷ l)) (k.kept (fd ∷ l)) (m.sysfs_disk v) v q))

    create-Holds : (l : List ℕ) (w : W) → P l w → Holds (P l) (create_kernel_partitions m w)
    unfolding create_kernel_partitions
    create-Holds l w h = converted-Holds l (with_file m false _ w) (
        with_file-Holds false _ l w h (λ fd v q.
          let Q = P (fd ∷ l) in
          Holds-continue Q (lift (m.gpt_entries v) v) _ (Holds-lift Q (m.gpt_entries v) v q)
            (λ es u r. add_each-Holds m Q (k.kept (fd ∷ l)) es u r)))

    -- The synchronisation closes what it opens.
    pub sync_gpt_partitions-Holds :
        (l : List ℕ) (w : W) → P l w → Holds (P l) (sync_gpt_partitions m w)
    unfolding sync_gpt_partitions
    sync_gpt_partitions-Holds l w h =
        Holds-continue (P l) (remove_kernel_partitions m w) _ (remove-Holds l w h)
          (λ _ v q. create-Holds l v q)

    commit-Holds :
        (t : T) (rs : List (ℕ × ℕ)) (l : List ℕ) (w : W) → P l w → Holds (P l) (commit m t rs w)
    unfolding commit
    commit-Holds t rs l w h =
        let i = k.kept l in
        Holds-continue (P l) (m.write t w) _ (i.write_kept t w h) (λ _ v q.
          Holds-continue (P l) (m.sync_all v) _ (i.sync_kept v q) (λ _ u r.
            Holds-continue (P l) (zero_each m rs u) _ (zero_each-Holds m (P l) i rs u r)
              (λ _ x s. create-Holds l x s)))

module _ {W T G U : Type 0} (m : Machine W T G) (P : List ℕ → W → Type 0) (k : IsScoped m P) where
  in_memory-Holds :
      (o : Option (List (Region (PartitionAttributes G U)))) (r : Result WriteError T)
      (f : T → Exec WriteError W Unit) (l : List ℕ) (w : W)
      → P l w
      → ((t : T) (v : W) → P l v → Holds (P l) (f t v))
      → Holds (P l) (elim o [ none ↦ panic | some x ↦ continue (lift r w) f ])
  in_memory-Holds none r f l w h q = tt
  in_memory-Holds (some x) r f l w h q =
      Holds-continue (P l) (lift r w) f (Holds-lift (P l) r w h) q

  apply_changes-Holds :
      (d : BlockDevice) (p : Planner (PartitionAttributes G U)) (writable : Bool) (l : List ℕ)
      (w : W)
      → P l w
      → Holds (P l) (apply_changes m d p writable w)
  unfolding apply_changes
  apply_changes-Holds d p true l w h =
      Holds-continue (P l) (remove_kernel_partitions m w) _ (remove-Holds m P k l w h) (λ _ v q.
        Holds-continue (P l) (open_table m p.wipe_disk d true v) _
          (open_table-Holds m (P l) (k.kept l) p.wipe_disk d true v q)
          (λ t u r.
            in_memory-Holds (current_layout p) (apply_each m p.changes t) _ l u r
              (λ t' x s. commit-Holds m P k t' (zero_regions p.changes) l x s)))
  apply_changes-Holds d p false l w h =
      Holds-continue (P l) (open_table m p.wipe_disk d false w) _
        (open_table-Holds m (P l) (k.kept l) p.wipe_disk d false w h)
        (λ t u r.
          in_memory-Holds (current_layout p) (apply_each m p.changes t) _ l u r (λ t' x s. s))

  -- A simulation closes what it opens.
  pub simulate-Holds :
      (d : BlockDevice) (p : Planner (PartitionAttributes G U)) (l : List ℕ) (w : W)
      → P l w
      → Holds (P l) (simulate m d p w)
  unfolding simulate
  simulate-Holds d p l w h = with_file-Holds m P k false _ l w h (λ fd v q.
      let Q = P (fd ∷ l) in
      Holds-continue Q (lift (validate_changes p) v) _ (Holds-lift Q (validate_changes p) v q)
        (λ _ u r. apply_changes-Holds d p false (fd ∷ l) u r))

  -- So does a write.
  pub write-Holds :
      (d : BlockDevice) (p : Planner (PartitionAttributes G U)) (l : List ℕ) (w : W)
      → P l w
      → Holds (P l) (write m d p w)
  unfolding write
  write-Holds d p l w h = with_file-Holds m P k true _ l w h (λ fd v q.
      let Q = P (fd ∷ l) in
      Holds-continue Q (lift (validate_changes p) v) _ (Holds-lift Q (validate_changes p) v q)
        (λ _ u r.
          Holds-continue Q (apply_changes m d p true u) _
            (apply_changes-Holds d p true (fd ∷ l) u r)
            (λ _ x s. (k.kept (fd ∷ l)).flush_kept x s)))
