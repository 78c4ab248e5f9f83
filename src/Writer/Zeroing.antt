-- ===== src/Writer/Zeroing.antt =====
-- What zeroing (crates/partitioning/src/writer.rs) changes on the device.
use disks_rs.Base.{
  ℕ, zero, suc, ◌+◌, ◌*◌, ◌/◌, ◌%◌, ◌≤◌, ◌<◌, ◌≡◌, refl, ap, ◌∙◌, subst, arith, inl, inr, ◌⊎◌, min,
  ltb, ltb→lt, ltb→ge, le→leb, lt→ltb, Bool-cases, Exec, done, continue, if◌then◌else◌,
}
use disks_rs.Writer.{
  Store, IoError, write_zeros, write_chunks, flush, zeroed, zero_region, zero_partition_prefix,
}

-- A store whose bytes from `at` up to `at + n` are zero and that is otherwise the one before.
pub record Zeroes (at n : ℕ) (s t : Store) : Type 0 where
  pub same_size : t.size ≡ s.size
  pub inside : (i : ℕ) → at ≤ i → i < at + n → t.byte i ≡ 0
  pub outside : (i : ℕ) → i < at ⊎ at + n ≤ i → t.byte i ≡ s.byte i

zeroed-inside : (at n i : ℕ) (b : ℕ → ℕ) → at ≤ i → i < at + n → zeroed at n b i ≡ 0
zeroed-inside at n i b h k = ground arith

zeroed-outside : (at n i : ℕ) (b : ℕ → ℕ) → i < at ⊎ at + n ≤ i → zeroed at n b i ≡ b i
zeroed-outside at n i b (inl h) = ground arith
zeroed-outside at n i b (inr h) = ground arith

-- The writes of one chunk after another.
Zeroes-append :
    (at n m : ℕ) (s t u : Store) → Zeroes at n s t → Zeroes (at + n) m t u → Zeroes at (n + m) s u
Zeroes-append at n m s t u h k = record {
  same_size = k.same_size ∙ h.same_size;
  inside = λ i lo hi. elim (Bool-cases (ltb i (at + n))) [
    | inl e ↦ k.outside i (inl (ltb→lt _ _ e)) ∙ h.inside i lo (ltb→lt _ _ e)
    | inr e ↦ k.inside i (ltb→ge _ _ e) (omega arith)
  ];
  outside = λ i o. elim o [
    | inl l ↦ k.outside i (inl (omega arith)) ∙ h.outside i (inl l)
    | inr g ↦ k.outside i (inr (omega arith)) ∙ h.outside i (inr (omega arith))
  ];
}

-- A call that leaves the position behind the zeros it wrote.
abbrev Wrote : ℕ → Store → Store → Type 0
Wrote n s t = Zeroes s.position n s t × (t.position ≡ s.position + n)

Wrote-append : (n m : ℕ) (s t u : Store) → Wrote n s t → Wrote m t u → Wrote (n + m) s u
Wrote-append n m s t u z y = (
  Zeroes-append s.position n m s t u z.0 (subst (λ a. Zeroes a m t u) z.1 y.0),
  omega (arith, z.1, y.1),
)

write_zeros-done :
    (n : ℕ) (s : Store)
    → s.position + n ≤ s.size
    → (t : Store) × (write_zeros n s ≡ done tt t) × Wrote n s t
write_zeros-done n s h = (
  record s { byte = zeroed s.position n s.byte; position = s.position + n },
  rw (le→leb _ _ h, write_zeros) refl,
  (
    record {
      same_size = refl;
      inside = λ i. zeroed-inside s.position n i s.byte;
      outside = λ i. zeroed-outside s.position n i s.byte;
    },
    refl,
  ),
)

Zeroes-none : (at : ℕ) (s : Store) → Zeroes at 0 s s
Zeroes-none at s = record {
  same_size = refl;
  inside = λ i h k. absurd (omega arith);
  outside = λ i h. refl;
}

write_chunks-done :
    (n : ℕ) (s : Store)
    → s.position + n * 65536 ≤ s.size
    → (t : Store) × (write_chunks n s ≡ done tt t) × Wrote (n * 65536) s t
unfolding write_chunks
write_chunks-done zero s h = (s, refl, (Zeroes-none s.position s, omega arith))
write_chunks-done (suc n) s h =
    let (t, e, z) = write_zeros-done 65536 s (omega arith) in
    let (u, f, y) = write_chunks-done n t (omega (arith, z.0.same_size, z.1)) in
    (
      u,
      ap (λ o. continue o (λ _. write_chunks n)) e ∙ f,
      subst (λ m. Wrote m s u) (omega arith) (Wrote-append 65536 (n * 65536) s t u z y),
    )

-- A part of the last chunk, if any is left.
remainder-done :
    (n : ℕ) (s : Store)
    → s.position + n ≤ s.size
    → (t : Store) × ((if ltb 0 n then write_zeros n s else done tt s) ≡ done tt t) × Wrote n s t
remainder-done zero s h = (s, refl, (Zeroes-none s.position s, omega arith))
remainder-done (suc n) s h = rw (lt→ltb 0 (suc n) (omega arith)) (write_zeros-done (suc n) s h)

-- What `zero_region` does after its seek.
abbrev rest : ℕ → Exec IoError Store Unit
rest size s = continue (write_chunks (size / 65536) s) (λ _ t.
    continue (if ltb 0 (size % 65536) then write_zeros (size % 65536) t else done tt t)
      (λ _. flush))

rest-done :
    (size : ℕ) (s : Store)
    → s.position + size ≤ s.size
    → (t : Store) × (rest size s ≡ done tt t) × Zeroes s.position size s t
rest-done size s h =
    let (t, e, z) = write_chunks-done (size / 65536) s (omega arith) in
    let (u, f, y) = remainder-done (size % 65536) t (omega (arith, z.0.same_size, z.1)) in
    (
      u,
      ap
            (λ o. continue o (λ _ t'.
              continue (if ltb 0 (size % 65536) then write_zeros (size % 65536) t' else done tt t')
                (λ _. flush)))
            e
          ∙ ap (λ o. continue o (λ _. flush)) f,
      subst (λ m. Zeroes s.position m s u) (omega arith)
          (Wrote-append (size / 65536 * 65536) (size % 65536) s t u z y).0,
    )

Zeroes-seek :
    (at n p : ℕ) (s t : Store) → Zeroes at n (record s { position = p }) t → Zeroes at n s t
Zeroes-seek at n p s t z = record {
  same_size = z.same_size;
  inside = z.inside;
  outside = z.outside;
}

-- Zeroing a region that lies on the device succeeds and sets exactly the region's bytes to zero.
pub zero_region-Zeroes :
    (offset size : ℕ) (s : Store)
    → offset + size ≤ s.size
    → (t : Store) × (zero_region offset size s ≡ done tt t) × Zeroes offset size s t
unfolding zero_region
zero_region-Zeroes offset size s h =
    let (t, e, z) = rest-done size (record s { position = offset }) h in
    (t, e, Zeroes-seek offset size offset s t z)

-- Zeroing the prefix of a partition that lies on the device succeeds and sets exactly the first
-- 2 MiB, or all of a smaller partition, to zero; nothing outside the partition changes.
pub zero_partition_prefix-Zeroes :
    (offset size : ℕ) (s : Store)
    → offset + size ≤ s.size
    → (t : Store) × (zero_partition_prefix offset size s ≡ done tt t)
      × Zeroes offset (min size (2 * 1024 * 1024)) s t
      × ((i : ℕ) → i < offset ⊎ offset + size ≤ i → t.byte i ≡ s.byte i)
unfolding zero_partition_prefix
zero_partition_prefix-Zeroes offset size s h =
    let (t, e, z) = zero_region-Zeroes offset (min size (2 * 1024 * 1024)) s (omega arith) in
    (t, e, z, λ i o. z.outside i (elim o [ inl l ↦ inl l | inr g ↦ inr (omega arith) ]))
