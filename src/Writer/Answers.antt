-- ===== src/Writer/Answers.antt =====
-- A machine that answers all calls, and the parts of a write on it: crates/partitioning/src/
-- writer.rs and blkpg.rs.
use disks_rs.Base.{
  ℕ, ◌≡◌, refl, ap, ◌∙◌, Bool, true, false, some, List, [], ◌∷◌, ok, done, continue, lift, add64,
  sub64, mul64,
}
use disks_rs.Disks.{Partition, BasicDisk}
use disks_rs.Writer.{Store}
use disks_rs.Writer.Blkpg
use disks_rs.Writer.Blkpg.{BlkpgIoctl, answer, request, blkpg_del_partition, blkpg_add_partition}
use disks_rs.Writer.Changes.{
  Machine, Entry, dropped, as_blkpg, delete_each, add_each, remove_kernel_partitions,
  create_kernel_partitions,
}

module _ {W T G : Type 0} (m : Machine W T G) where
  abbrev pub device_size : W → ℕ
  device_size w = (m.store w).size

  -- All calls succeed, and the device keeps its size. Only the operations on tables change its
  -- contents, beside what the program itself stores.
  pub record IsAnswering : Type 0 where
    pub opened :
        (b : Bool) (w : W) → (v : W) × (m.open_file b w ≡ done tt v) × (m.store v ≡ m.store w)
    pub closed_same : (w : W) → m.store (m.close_file w) ≡ m.store w
    pub flushed : (w : W) → (v : W) × (m.flush w ≡ done tt v) × (m.store v ≡ m.store w)
    pub stored : (s : Store) (w : W) → m.store (m.put s w) ≡ s
    pub created :
        (b : Bool) (w : W)
        → (t : T) × (v : W) × (m.create_from_device b w ≡ done t v)
          × (device_size v ≡ device_size w)
    pub table_opened :
        (b : Bool) (w : W)
        → (t : T) × (v : W) × (m.open_from_device b w ≡ done t v) × (device_size v ≡ device_size w)
    pub placed :
        (t : T) (w : W)
        → (u : T) × (v : W) × (m.write_inplace t w ≡ done u v) × (device_size v ≡ device_size w)
    pub written :
        (t : T) (w : W) → (v : W) × (m.write t w ≡ done tt v) × (device_size v ≡ device_size w)
    pub synced : (w : W) → (v : W) × (m.sync_all w ≡ done tt v) × (device_size v ≡ device_size w)
    pub overwritten :
        (n : ℕ) (w : W)
        → (v : W) × (m.overwrite_lba0 n w ≡ done tt v) × (device_size v ≡ device_size w)
    pub disk_read : (w : W) → (d : BasicDisk) × (m.sysfs_disk w ≡ some d)
    pub table_read : (w : W) → (es : List Entry) × (m.gpt_entries w ≡ ok es)
    pub answered : (x : BlkpgIoctl) (w : W) → (m.ioctl x w).0 ≡ true
    pub called : (x : BlkpgIoctl) (w : W) → m.store (m.ioctl x w).1 ≡ m.store w

  module _ (r : IsAnswering) where
    delete_each-done :
        (ps : List Partition) (w : W)
        → (v : W) × (delete_each m ps w ≡ done tt v) × (m.store v ≡ m.store w)
    unfolding delete_each Blkpg.delete_partition
    delete_each-done [] w = (w, refl, refl)
    delete_each-done (p ∷ ps) w =
        let x = request blkpg_del_partition p.number 0 0 in
        let (v, e, k) = delete_each-done ps (m.ioctl x w).1 in
        (v, rw (r.answered x w) e, k ∙ r.called x w)

    add_each-done :
        (es : List Entry) (w : W)
        → (v : W) × (add_each m es w ≡ done tt v) × (m.store v ≡ m.store w)
    unfolding add_each Blkpg.add_partition
    add_each-done [] w = (w, refl, refl)
    add_each-done (e ∷ es) w =
        let x =
          request blkpg_add_partition e.number (mul64 e.first_lba 512)
            (mul64 (add64 (sub64 e.last_lba e.first_lba) 1) 512) in
        let (v, q, k) = add_each-done es (m.ioctl x w).1 in
        (v, rw (r.answered x w) q, k ∙ r.called x w)

    pub remove-done :
        (w : W) → (v : W) × (remove_kernel_partitions m w ≡ done tt v) × (m.store v ≡ m.store w)
    unfolding remove_kernel_partitions
    remove-done w =
        let (w1, e, k) = r.opened false w in
        let (d, q) = r.disk_read w1 in
        let (v, x, l) = delete_each-done d.partitions w1 in
        (
          m.close_file v,
          rw (e, continue) (rw q (ap (λ o. as_blkpg m (dropped m o)) x)),
          r.closed_same v ∙ l ∙ k,
        )

    pub create-done :
        (w : W) → (v : W) × (create_kernel_partitions m w ≡ done tt v) × (m.store v ≡ m.store w)
    unfolding create_kernel_partitions
    create-done w =
        let (w1, e, k) = r.opened false w in
        let (es, q) = r.table_read w1 in
        let (v, x, l) = add_each-done es w1 in
        (
          m.close_file v,
          rw (e, continue) (rw (q, lift, continue) (ap (λ o. as_blkpg m (dropped m o)) x)),
          r.closed_same v ∙ l ∙ k,
        )
