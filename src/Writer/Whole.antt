-- ===== src/Writer/Whole.antt =====
-- Writing additions of whole sizes to a disk that is wiped: crates/partitioning/src/writer.rs,
-- `simulate` and `write`.
use disks_rs.Base.{
  ℕ, ◌+◌, ◌*◌, ◌≤◌, ◌<◌, ◌≡◌, ◌≢◌, refl, sym, ap, ◌∙◌, arith, subst, true, false, Option, none,
  some, List, [], ◌∷◌, All, Pairwise, length, ok, done, continue, continue-done, lift, u64_mod,
}
use disks_rs.Disks.{BlockDevice}
use disks_rs.Sizing.{is_aligned}
use disks_rs.Attributes.{PartitionAttributes}
use disks_rs.Planner.{Planner, Region, current_layout, partition_alignment}
use disks_rs.Planner.Numbers.{added_ids}
use disks_rs.Strategy.Exact.{sum, additions, IsWhole}
use disks_rs.Writer.{Store, zero_disk_headers}
use disks_rs.Writer.Changes.{
  Machine, on_store, open_table, lb_size, apply_each, apply_changes, validate_changes, zero_regions,
  simulate, write, zero_each, remove_kernel_partitions, create_kernel_partitions,
}
use disks_rs.Writer.Validation.{validate-rising}
use disks_rs.Writer.Table.{
  id_of, wanted, apply_each-wanted, apply_each-other, apply_changes-commits, commit-steps,
  write-steps,
}
use disks_rs.Writer.Gpt.{IsGpt, empty-IsFree, apply_each-additions}
use disks_rs.Writer.Answers.{device_size, IsAnswering}
use disks_rs.Writer.Progress.{IsOn, HasZeroPrefix, Ends, write-Ends}

nothing_used : (is : List ℕ) → All (λ i. All (λ u. u < i) []) is
nothing_used [] = tt
nothing_used (i ∷ is) = (tt, nothing_used is)

module _ {A : Type 0} where
  ids_above :
      (qs : List (ℕ × Option A)) (c i j : ℕ)
      → j < i
      → All (λ k. j < k) (added_ids (additions c i qs))
  ids_above [] c i j h = tt
  ids_above ((n, a) ∷ qs) c i j h = (h, ids_above qs (c + n) (i + 1) j (omega arith))

  ids_rising : (qs : List (ℕ × Option A)) (c i : ℕ) → Pairwise ◌<◌ (added_ids (additions c i qs))
  ids_rising [] c i = tt
  ids_rising ((n, a) ∷ qs) c i =
      (ids_above qs (c + n) (i + 1) i (omega arith), ids_rising qs (c + n) (i + 1))

  ids_apart :
      (qs : List (ℕ × Option A)) (c i j : ℕ) → j < i → All (λ x. j ≢ id_of x) (additions c i qs)
  ids_apart [] c i j h = tt
  ids_apart ((n, a) ∷ qs) c i j h =
      ((λ e. absurd (omega (arith, e))), ids_apart qs (c + n) (i + 1) j (omega arith))

  ids_distinct :
      (qs : List (ℕ × Option A)) (c i : ℕ) → Pairwise (λ x y. id_of x ≢ id_of y) (additions c i qs)
  ids_distinct [] c i = tt
  ids_distinct ((n, a) ∷ qs) c i =
      (ids_apart qs (c + n) (i + 1) i (omega arith), ids_distinct qs (c + n) (i + 1))

  regions-IsOn :
      (qs : List (ℕ × Option A)) (c i size : ℕ)
      → c + sum qs ≤ size
      → All (IsOn size) (zero_regions (additions c i qs))
  regions-IsOn [] c i size h = tt
  regions-IsOn ((n, a) ∷ qs) c i size h =
      ((omega arith, omega arith), regions-IsOn qs (c + n) (i + 1) size (omega arith))

  -- A planner whose changes are additions of whole sizes from the first alignment on, on a disk that
  -- is to be wiped.
  pub record IsWholePlan (qs : List (ℕ × Option A)) (p : Planner A) : Type 0 where
    pub changes : p.changes ≡ additions partition_alignment 1 qs
    pub wiped : p.wipe_disk ≡ true
    pub layout : List (Region A)
    pub is_layout : current_layout p ≡ some layout
    pub whole : All IsWhole qs

  whole-valid :
      (qs : List (ℕ × Option A)) (p : Planner A) → IsWholePlan qs p → validate_changes p ≡ ok tt
  unfolding validate_changes
  whole-valid qs p i = rw i.changes (
      validate-rising [] (additions partition_alignment 1 qs) (ids_rising qs partition_alignment 1)
        (nothing_used (added_ids (additions partition_alignment 1 qs))))

module _ {W T G : Type 0} (m : Machine W T G) (look : T → ℕ → Option (ℕ × ℕ)) (blocks : ℕ) where
  -- The table of a wiped disk is empty.
  wiped-empty :
      (d : BlockDevice) (w v : W) (t : T)
      → IsGpt m look blocks
      → open_table m true d true w ≡ done t v
      → (j : ℕ) → look t j ≡ none
  unfolding open_table
  wiped-empty d w v t g h j =
      let (_, w1, _, k1) = continue-done (on_store m zero_disk_headers w) _ t v h in
      let (_, w2, _, k2) = continue-done (m.overwrite_lba0 (lb_size d) w1) _ t v k1 in
      let (t0, w3, made, k3) = continue-done (m.create_from_device true w2) _ t v k2 in
      g.placed_same t0 t w3 v k3 j ∙ g.created_empty true w2 w3 t0 made j

module _ {W T G U : Type 0} (m : Machine W T G) (r : IsAnswering m) where
  simulate-done :
      (d : BlockDevice) (p : Planner (PartitionAttributes G U))
      (l : List (Region (PartitionAttributes G U))) (w : W)
      → p.wipe_disk ≡ true
      → validate_changes p ≡ ok tt
      → current_layout p ≡ some l
      → ((v w' : W) (t : T)
          → m.create_from_device false v ≡ done t w'
          → (u : T) × (apply_each m p.changes t ≡ ok u))
      → (v : W) × (simulate m d p w ≡ done tt v) × (device_size m v ≡ device_size m w)
  unfolding simulate apply_changes open_table
  simulate-done d p l w wiped valid laid accepted =
      let (w1, e1, k1) = r.opened false w in
      let (t, w2, e2, k2) = r.created false w1 in
      let (u, q) = accepted w1 w2 t e2 in
      (
        m.close_file w2,
        rw (e1, continue)
            (rw (valid, lift, continue)
              (rw wiped (rw (e2, continue) (rw laid (rw (q, lift, continue) refl))))),
        ap Store.size (r.closed_same w2) ∙ k2 ∙ ap Store.size k1,
      )

module _ {W T G U : Type 0} (m : Machine W T G) (look : T → ℕ → Option (ℕ × ℕ)) (d : BlockDevice)
    (qs : List (ℕ × Option (PartitionAttributes G U))) where
  -- All that the machine did from one state to another: it opened the device, removed the kernel's
  -- partitions, made a table, wrote one with exactly the partitions, and from there on it
  -- synchronised, zeroed the regions, told the kernel, flushed and closed. The partitions begin with zeros
  -- now.
  pub record IsWritten (w v : W) : Type 0 where
    pub ready : W
    pub removed : W
    pub made : W
    pub put : W
    pub synced : W
    pub zeros : W
    pub told : W
    pub flushed : W
    pub fresh : T
    pub table : T
    pub opens : m.open_file true w ≡ done tt ready
    pub removes : remove_kernel_partitions m ready ≡ done tt removed
    pub makes : open_table m true d true removed ≡ done fresh made
    pub writes : m.write table made ≡ done tt put
    pub syncs : m.sync_all put ≡ done tt synced
    pub zeroes :
        zero_each m (zero_regions (additions partition_alignment 1 qs)) synced ≡ done tt zeros
    pub tells : create_kernel_partitions m zeros ≡ done tt told
    pub flushes : m.flush told ≡ done tt flushed
    pub closes : m.close_file flushed ≡ v
    pub partitions : All (λ c. look table (id_of c) ≡ wanted c) (additions partition_alignment 1 qs)
    pub others :
        (j : ℕ) → All (λ c. id_of c ≢ j) (additions partition_alignment 1 qs) → look table j ≡ none
    pub zeroed : All (HasZeroPrefix (m.store v)) (zero_regions (additions partition_alignment 1 qs))

module _ {W T G U : Type 0} (m : Machine W T G) (look : T → ℕ → Option (ℕ × ℕ)) (blocks : ℕ)
    (r : IsAnswering m) (g : IsGpt m look blocks)
    (qs : List (ℕ × Option (PartitionAttributes G U))) where
  empty-accepts :
      (t : T)
      → All IsWhole qs
      → partition_alignment + sum qs + partition_alignment ≤ blocks * 512
      → blocks * 512 < u64_mod
      → length qs ≤ 128
      → ((j : ℕ) → look t j ≡ none)
      → (u : T) × (apply_each m (additions partition_alignment 1 qs) t ≡ ok u)
  unfolding is_aligned
  empty-accepts t w room bounded few e =
      apply_each-additions m look blocks qs partition_alignment 1 t g w refl (omega arith) room
        bounded (omega arith) (omega arith) (empty-IsFree m look partition_alignment 1 t e)

  plan-accepts :
      (p : Planner (PartitionAttributes G U)) (t : T)
      → IsWholePlan qs p
      → partition_alignment + sum qs + partition_alignment ≤ blocks * 512
      → blocks * 512 < u64_mod
      → length qs ≤ 128
      → ((j : ℕ) → look t j ≡ none)
      → (u : T) × (apply_each m p.changes t ≡ ok u)
  plan-accepts p t i room bounded few e =
      subst (λ cs. (u : T) × (apply_each m cs t ≡ ok u)) (sym i.changes)
        (empty-accepts t i.whole room bounded few e)

  opened-empty :
      (d : BlockDevice) (p : Planner (PartitionAttributes G U)) (w v : W) (t : T)
      → p.wipe_disk ≡ true
      → open_table m p.wipe_disk d true w ≡ done t v
      → (j : ℕ) → look t j ≡ none
  opened-empty d p w v t wiped opened =
      wiped-empty m look blocks d w v t g
        (subst (λ b. open_table m b d true w ≡ done t v) wiped opened)

  whole-simulate :
      (d : BlockDevice) (p : Planner (PartitionAttributes G U)) (w : W)
      → IsWholePlan qs p
      → partition_alignment + sum qs + partition_alignment ≤ blocks * 512
      → blocks * 512 < u64_mod
      → length qs ≤ 128
      → (v : W) × (simulate m d p w ≡ done tt v) × (device_size m v ≡ device_size m w)
  whole-simulate d p w i room bounded few =
      simulate-done m r d p i.layout w i.wiped (whole-valid qs p i) i.is_layout
        (λ a b t e. plan-accepts p t i room bounded few (g.created_empty false a b t e))

  whole-write :
      (d : BlockDevice) (p : Planner (PartitionAttributes G U)) (w : W)
      → IsWholePlan qs p
      → device_size m w ≡ blocks * 512
      → partition_alignment + sum qs + partition_alignment ≤ blocks * 512
      → blocks * 512 < u64_mod
      → length qs ≤ 128
      → (v : W) × (write m d p w ≡ done tt v)
        × All (HasZeroPrefix (m.store v)) (zero_regions p.changes)
  whole-write d p w i size room bounded few =
      let on : All (IsOn (device_size m w)) (zero_regions p.changes) =
        subst (λ cs. All (IsOn (device_size m w)) (zero_regions cs)) (sym i.changes)
          (regions-IsOn qs partition_alignment 1 (device_size m w) (omega (arith, size))) in
      let (t, w1, w2, opened, ends) =
        write-Ends m r d p i.layout w (omega (arith, size)) (omega (arith, size))
          (whole-valid qs p i) i.is_layout on in
      let (u, q) = plan-accepts p t i room bounded few (opened-empty d p w1 w2 t i.wiped opened) in
      subst (Ends m r d p w t) q ends

  write-IsWritten :
      (d : BlockDevice) (p : Planner (PartitionAttributes G U)) (w v : W)
      → IsWholePlan qs p
      → write m d p w ≡ done tt v
      → All (HasZeroPrefix (m.store v)) (zero_regions p.changes)
      → IsWritten m look d qs w v
  write-IsWritten d p w v i done_so zeros =
      let (w0, w7, opens, _, applied, w8, flushes, closes) = write-steps m look d p w v done_so in
      let (t, u, w1, w2, removes, opened, q, committed) =
        apply_changes-commits m look d p w0 w7 applied in
      let (w3, w4, w5, writes, syncs, zeroes, tells) =
        commit-steps m u (zero_regions p.changes) w2 w7 committed in
      let r' : apply_each m (additions partition_alignment 1 qs) t ≡ ok u =
        subst (λ cs. apply_each m cs t ≡ ok u) i.changes q in
      record {
        ready = w0;
        removed = w1;
        made = w2;
        put = w3;
        synced = w4;
        zeros = w5;
        told = w7;
        flushed = w8;
        fresh = t;
        table = u;
        opens = opens;
        removes = removes;
        makes = subst (λ b. open_table m b d true w1 ≡ done t w2) i.wiped opened;
        writes = writes;
        syncs = syncs;
        zeroes = subst (λ cs. zero_each m (zero_regions cs) w4 ≡ done tt w5) i.changes zeroes;
        tells = tells;
        flushes = flushes;
        closes = closes;
        partitions =
            apply_each-wanted m look (additions partition_alignment 1 qs) t u g.laws r'
              (ids_distinct qs partition_alignment 1);
        others = λ j k.
            apply_each-other m look (additions partition_alignment 1 qs) t u j g.laws r' k
            ∙ opened-empty d p w1 w2 t i.wiped opened j;
        zeroed = subst (λ cs. All (HasZeroPrefix (m.store v)) (zero_regions cs)) i.changes zeros;
      }

  -- On a machine that answers all calls, with tables as the gpt crate documents them, take a device
  -- of less than 2 ^ 64 bytes that is to be wiped and at most 128 additions of whole sizes, one
  -- behind the other, that fit between the alignments at its ends. The simulation succeeds, and so
  -- does a write after it; that write makes a table, writes it with exactly the partitions, and then
  -- synchronises, zeroes, tells the kernel and flushes; at its end the first 2 MiB of each partition
  -- are zero, or all of a smaller one.
  pub whole-IsWritten :
      (d : BlockDevice) (p : Planner (PartitionAttributes G U)) (w : W)
      → IsWholePlan qs p
      → device_size m w ≡ blocks * 512
      → partition_alignment + sum qs + partition_alignment ≤ blocks * 512
      → blocks * 512 < u64_mod
      → length qs ≤ 128
      → (v v' : W) × (simulate m d p w ≡ done tt v)
        × (write m d p v ≡ done tt v')
        × IsWritten m look d qs v v'
  whole-IsWritten d p w i size room bounded few =
      let (v, simulated, kept) = whole-simulate d p w i room bounded few in
      let (v', written, zeros) = whole-write d p v i (omega (arith, kept, size)) room bounded few in
      (v, v', simulated, written, write-IsWritten d p v v' i written zeros)
