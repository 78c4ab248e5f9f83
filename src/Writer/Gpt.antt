-- ===== src/Writer/Gpt.antt =====
-- A GPT table accepts partitions one behind the other: crates/partitioning/src/writer.rs,
-- `apply_changes`, on tables as the gpt crate documents them.
use disks_rs.Base.{
  ℕ, ◌+◌, ◌*◌, ◌/◌, ◌%◌, ◌≤◌, ◌<◌, ◌≡◌, refl, sym, ap, ◌∙◌, arith, inl, inr, ◌⊎◌, Bool, true, false,
  Bool-cases, Option, none, some, some-inj, none≢some, List, [], ◌∷◌, All, length, ◌==◌,
  if◌then◌else◌, String, ok, done, sub64, sub64-eq, u64_mod,
}
use disks_rs.Sizing.{is_aligned}
use disks_rs.Attributes.{PartitionAttributes}
use disks_rs.Planner.{add_partition, partition_alignment}
use disks_rs.Strategy.Exact.{sum, additions, IsWhole, is_aligned-+}
use disks_rs.Writer.Changes.{Machine, lba_range, type_and_name, apply_change, apply_each}
use disks_rs.Writer.Table.{IsTable}

-- The blocks that a table keeps for itself at each end of the device.
abbrev pub reserved : ℕ
reserved = 34

module _ {W T G : Type 0} (m : Machine W T G) where
  -- What is documented of tables on a device of a number of blocks: a created one is empty, and a
  -- free number from 1 to 128 takes a free range of blocks that leaves out the reserved ones.
  pub record IsGpt (look : T → ℕ → Option (ℕ × ℕ)) (blocks : ℕ) : Type 0 where
    pub laws : IsTable m look
    pub created_empty :
        (b : Bool) (w v : W) (t : T)
        → m.create_from_device b w ≡ done t v
        → (j : ℕ) → look t j ≡ none
    pub placed_same :
        (t u : T) (w v : W) → m.write_inplace t w ≡ done u v → (j : ℕ) → look u j ≡ look t j
    pub accepts :
        (name : String) (id start count : ℕ) (type : G) (t : T)
        → 0 < id
        → id ≤ 128
        → reserved ≤ start
        → 0 < count
        → start + count + reserved ≤ blocks
        → look t id ≡ none
        → ((j a n : ℕ) → look t j ≡ some (a, n) → (a + n ≤ start) ⊎ (start + count ≤ a))
        → (u : T) × (m.add_partition_at name id start count type t ≡ ok u)

  -- The numbers from `i` on are free, and all partitions end before the byte `c`.
  pub record IsFree (look : T → ℕ → Option (ℕ × ℕ)) (c i : ℕ) (t : T) : Type 0 where
    pub numbers : (j : ℕ) → i ≤ j → look t j ≡ none
    pub ends : (j a n : ℕ) → look t j ≡ some (a, n) → (a + n) * 512 ≤ c

  pub empty-IsFree :
      (look : T → ℕ → Option (ℕ × ℕ)) (c i : ℕ) (t : T)
      → ((j : ℕ) → look t j ≡ none)
      → IsFree look c i t
  empty-IsFree look c i t e = record {
    numbers = λ j h. e j;
    ends = λ j a n h. absurd (none≢some (sym (e j) ∙ h));
  }

-- The entries of a table with one more.
entry-cases :
    (i j c n : ℕ) (old : Option (ℕ × ℕ)) (a k : ℕ)
    → (if i == j then some (c, n) else old) ≡ some (a, k)
    → ((a ≡ c) × (k ≡ n)) ⊎ (old ≡ some (a, k))
entry-cases i j c n old a k h = elim (Bool-cases (i == j)) [
  | inl e ↦
      let q : ◌≡◌ {A = ℕ × ℕ} (c, n) (a, k) = some-inj (rw e at h) in
      inl (ap (λ (x : ℕ × ℕ). x.0) (sym q), ap (λ (x : ℕ × ℕ). x.1) (sym q))
  | inr e ↦ inr (rw e at h)
]

later : (i j : ℕ) → i + 1 ≤ j → (i == j) ≡ false
later i j h = ground arith

aligned_mod : (x : ℕ) → is_aligned x partition_alignment ≡ true → x % partition_alignment ≡ 0
unfolding is_aligned
aligned_mod x h = ground arith

module _ {W T G : Type 0} (m : Machine W T G) (look : T → ℕ → Option (ℕ × ℕ)) where
  add-IsFree :
      (name : String) (type : G) (i start count c d : ℕ) (t u : T)
      → IsTable m look
      → m.add_partition_at name i start count type t ≡ ok u
      → (start + count) * 512 ≤ d
      → c ≤ d
      → IsFree m look c i t
      → IsFree m look d (i + 1) u
  add-IsFree name type i start count c d t u laws e end le f = record {
    numbers = λ j h.
        laws.look-add name i start count type t u e j
        ∙ ap (λ b. if b then some (start, count) else look t j) (later i j h)
        ∙ f.numbers j (omega arith);
    ends = λ j a n h.
        elim (entry-cases i j start count (look t j) a n
          (sym (laws.look-add name i start count type t u e j) ∙ h)) [
            | inl (p, q) ↦ omega (arith, end, p, q)
            | inr old ↦ omega (arith, f.ends j a n old, le)
          ];
  }

module _ {W T G U : Type 0} (m : Machine W T G) (look : T → ℕ → Option (ℕ × ℕ)) (blocks : ℕ) where
  -- One addition is accepted.
  addition_accepted :
      (c n i : ℕ) (a : Option (PartitionAttributes G U)) (t : T)
      → IsGpt m look blocks
      → c % partition_alignment ≡ 0
      → n % partition_alignment ≡ 0
      → 0 < n
      → partition_alignment ≤ c
      → c + n + partition_alignment ≤ blocks * 512
      → blocks * 512 < u64_mod
      → 0 < i
      → i ≤ 128
      → IsFree m look c i t
      → (u : T) × (apply_change m (add_partition c (c + n) i a) t ≡ ok u)
        × IsFree m look (c + n) (i + 1) u
  unfolding apply_change lba_range
  addition_accepted c n i a t g cm nm pos low room bounded ipos ile f =
      let span : sub64 (c + n) c ≡ n =
        sub64-eq (c + n) c (omega arith) (omega arith) ∙ omega arith in
      let count = sub64 (c + n) c / 512 in
      let (type, name) = type_and_name m a in
      let (u, e) =
        g.accepts name i (c / 512) count type t ipos ile (omega (arith, low)) (omega (arith, span))
          (omega (arith, span)) (f.numbers i (omega arith))
          (λ j b k h. inl (omega (arith, f.ends j b k h))) in
      (
        u,
        e,
        add-IsFree m look name type i (c / 512) count c (c + n) t u g.laws e (omega (arith, span))
            (omega arith) f,
      )

  -- Additions of whole sizes one behind the other, in a free range of the device.
  pub apply_each-additions :
      (qs : List (ℕ × Option (PartitionAttributes G U))) (c i : ℕ) (t : T)
      → IsGpt m look blocks
      → All IsWhole qs
      → is_aligned c partition_alignment ≡ true
      → partition_alignment ≤ c
      → c + sum qs + partition_alignment ≤ blocks * 512
      → blocks * 512 < u64_mod
      → 0 < i
      → i + length qs ≤ 129
      → IsFree m look c i t
      → (u : T) × (apply_each m (additions c i qs) t ≡ ok u)
  unfolding apply_each
  apply_each-additions [] c i t g w al low room bounded pos ids f = (t, refl)
  apply_each-additions ((n, a) ∷ qs) c i t g w al low room bounded pos ids f =
      let (u, e, free) =
        addition_accepted c n i a t g (aligned_mod c al) (aligned_mod n w.0.0) w.0.1 low
          (omega arith) bounded pos (omega arith) f in
      let (v, q) =
        apply_each-additions qs (c + n) (i + 1) u g w.1 (is_aligned-+ c n al w.0.0) (omega arith)
          (omega arith) bounded (omega arith) (omega arith) free in
      (v, rw (e, apply_each) q)
