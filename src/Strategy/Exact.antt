-- ===== src/Strategy/Exact.antt =====
-- A whole-disk strategy of exact requests lays the partitions out one behind the other:
-- crates/partitioning/src/strategy.rs, `apply`.
use mathlib.Core.List.{append-nil, append_assoc}
use disks_rs.Base.{
  ℕ, ◌+◌, ◌≤◌, ◌<◌, ◌≡◌, refl, sym, ap, ◌∙◌, inr, true, false, Option, some, List, [], ◌∷◌, ◌++◌,
  arith, All, All-map, All-append, length, add64, sub64, add32, add64-eq, sub64-eq, add32-eq,
  u64_mod, u32_mod, Outcome, done, ltb, ge→ltb,
}
use disks_rs.Sizing.{is_aligned}
use disks_rs.Sizing.Nearest.{align_aligned}
use disks_rs.Planner.{
  PlanError, Change, add_partition, Region, Planner, new_region, current_layout,
  partition_alignment, plan_add_partition_with_attributes, plan_initialize_disk, aligned_start,
  aligned_end, layout_of,
}
use disks_rs.Planner.Adding.{Apart, planned, plan_add_iff}
use disks_rs.Planner.History.{region_of, layout-append_add}
use disks_rs.Strategy.{
  exact, PartitionRequest, initialize_whole_disk, exact_pass, fill, apply, flexible_pass,
  flexible_requests, total_fixed, min_flexible,
}

pub is_aligned-+ :
    (c n : ℕ)
    → is_aligned c partition_alignment ≡ true
    → is_aligned n partition_alignment ≡ true
    → is_aligned (c + n) partition_alignment ≡ true
unfolding is_aligned
is_aligned-+ c n h k = ground arith

module _ {A : Type 0} where
  -- Requests for exact sizes.
  abbrev pub exacts : List (ℕ × Option A) → List (PartitionRequest A)
  exacts [] = []
  exacts ((n, a) ∷ qs) = record { size = exact n; attributes = a } ∷ exacts qs

  abbrev pub sum : List (ℕ × Option A) → ℕ
  sum [] = 0
  sum ((n, a) ∷ qs) = n + sum qs

  -- The partitions that are wanted: from `c` on, each where the last one ends, ids from `i` on.
  abbrev pub consecutive : ℕ → ℕ → List (ℕ × Option A) → List (Region A)
  consecutive c i [] = []
  consecutive c i ((n, a) ∷ qs) = region_of c (c + n) i a ∷ consecutive (c + n) (i + 1) qs

  -- The changes that plan them.
  abbrev pub additions : ℕ → ℕ → List (ℕ × Option A) → List (Change A)
  additions c i [] = []
  additions c i ((n, a) ∷ qs) = add_partition c (c + n) i a ∷ additions (c + n) (i + 1) qs

  -- A size that alignment leaves alone.
  abbrev pub IsWhole : ℕ × Option A → Type 0
  IsWhole (n, a) = (is_aligned n partition_alignment ≡ true) × (0 < n)

  -- One aligned request behind all regions of the layout is accepted as it is.
  pub plan_add-behind :
      (c e : ℕ) (a : Option A) (p : Planner A) (l : List (Region A))
      → is_aligned c partition_alignment ≡ true
      → is_aligned e partition_alignment ≡ true
      → p.usable_start ≤ c
      → c < e
      → e ≤ p.usable_end
      → current_layout p ≡ some l
      → All (λ r. r.end ≤ c) l
      → plan_add_partition_with_attributes c e a p ≡ done tt (planned c e a p)
  plan_add-behind c e a p l hc he lo lt hi here ends =
      let s : aligned_start c p ≡ c = omega (arith, (align_aligned c partition_alignment hc).0) in
      let t : aligned_end e p ≡ e = omega (arith, (align_aligned e partition_alignment he).1) in
      (plan_add_iff c e a p (planned c e a p)).1 (
        record {
          start_kept = λ _. lo;
          end_kept = λ _. hi;
          nonempty = rw (s, t) lt;
          layout = l;
          is_layout = here;
          apart =
              rw (s, t) (All-map (λ r. r.end ≤ c) (Apart (new_region c e)) l (λ r k. inr k) ends);
        },
        rw (s, t),
      )

  -- The first request is met, and the pass goes on behind it.
  exact_pass-cons :
      (n : ℕ) (a : Option A) (qs : List (ℕ × Option A)) (c d left : ℕ) (p q : Planner A)
      {o : Outcome PlanError (Planner A) (ℕ × ℕ)}
      → plan_add_partition_with_attributes c (add64 c n) a p ≡ done tt q
      → add64 c n ≡ d
      → exact_pass (exacts qs) d (sub64 left n) q ≡ o
      → exact_pass (exacts ((n, a) ∷ qs)) c left p ≡ o
  unfolding exact_pass
  exact_pass-cons n a qs c d left p q h e k = rw h (rw e k)

  exact_pass-consecutive :
      (qs : List (ℕ × Option A)) (c left : ℕ) (p : Planner A) (l : List (Region A))
      → All IsWhole qs
      → is_aligned c partition_alignment ≡ true
      → p.usable_start ≤ c
      → c + sum qs ≤ p.usable_end
      → p.usable_end < u64_mod
      → current_layout p ≡ some l
      → All (λ r. r.end ≤ c) l
      → p.next_partition_id + length qs < u32_mod
      → (q : Planner A) × (c' : ℕ) × (left' : ℕ) × (exact_pass (exacts qs) c left p
          ≡ done (c', left') q)
        × (current_layout q ≡ some (l ++ consecutive c p.next_partition_id qs))
        × (q.changes ≡ p.changes ++ additions c p.next_partition_id qs)
        × (q.wipe_disk ≡ p.wipe_disk)
  unfolding exact_pass
  exact_pass-consecutive [] c left p l w al lo hi bounded here ends ids =
      (p, c, left, refl, here ∙ ap some (sym (append-nil l)), sym (append-nil p.changes), refl)
  exact_pass-consecutive ((n, a) ∷ qs) c left p l w al lo hi bounded here ends ids =
      let e : add64 c n ≡ c + n = add64-eq c n (omega arith) in
      let al' = is_aligned-+ c n al w.0.0 in
      let i = p.next_partition_id in
      let i' : add32 i 1 ≡ i + 1 = add32-eq i 1 (omega arith) in
      let p' = planned c (c + n) a p in
      let r = region_of c (c + n) i a in
      let step : plan_add_partition_with_attributes c (add64 c n) a p ≡ done tt p' = rw e (
        plan_add-behind c (c + n) a p l al al' lo (omega (arith, w.0.1)) (omega arith) here ends) in
      let grown : current_layout p' ≡ some (l ++ r ∷ []) =
        layout-append_add p.original_regions p.changes c (c + n) i a l here in
      let ends' : All (λ s. s.end ≤ c + n) (l ++ r ∷ []) =
        All-append (λ s. s.end ≤ c + n) l (r ∷ [])
          (All-map (λ s. s.end ≤ c) (λ s. s.end ≤ c + n) l (λ s k. omega arith) ends)
          (omega arith, tt) in
      let (q, c', left', run, laid, planned_ones, wiped) =
        exact_pass-consecutive qs (c + n) (sub64 left n) p' (l ++ r ∷ []) w.1 al' (omega arith)
          (omega arith) bounded grown ends' (omega (arith, i')) in
      (
        q,
        c',
        left',
        exact_pass-cons n a qs c (c + n) left p p' step e run,
        laid
            ∙ ap some (
                append_assoc l (r ∷ []) (consecutive (c + n) (add32 i 1) qs)
                ∙ ap (λ k. l ++ r ∷ consecutive (c + n) k qs) i'),
        planned_ones
            ∙ append_assoc p.changes (add_partition c (c + n) i a ∷ [])
                (additions (c + n) (add32 i 1) qs)
            ∙ ap (λ k. p.changes ++ add_partition c (c + n) i a ∷ additions (c + n) k qs) i',
        wiped,
      )

  -- Of exact requests, none is flexible, and the fixed total is the sum.
  flexible_requests-exacts :
      (k : ℕ) (qs : List (ℕ × Option A)) → flexible_requests k (exacts qs) ≡ []
  flexible_requests-exacts k [] = refl
  flexible_requests-exacts k ((n, a) ∷ qs) = flexible_requests-exacts (k + 1) qs

  min_flexible-exacts : (k : ℕ) (qs : List (ℕ × Option A)) → min_flexible k (exacts qs) ≡ k
  min_flexible-exacts k [] = refl
  min_flexible-exacts k ((n, a) ∷ qs) = min_flexible-exacts k qs

  total_fixed-exacts :
      (k : ℕ) (qs : List (ℕ × Option A))
      → k + sum qs < u64_mod
      → total_fixed k (exacts qs) ≡ k + sum qs
  total_fixed-exacts k [] h = omega arith
  total_fixed-exacts k ((n, a) ∷ qs) h =
      let e : add64 k n ≡ k + n = add64-eq k n (omega arith) in
      rw (e, total_fixed) (total_fixed-exacts (k + n) qs (omega arith) ∙ omega arith)

  fill-exacts :
      (qs : List (ℕ × Option A)) (r : Region A) (p q : Planner A) (c left : ℕ)
      → r.start + sum qs ≤ r.end
      → r.end < u64_mod
      → exact_pass (exacts qs) r.start (sub64 r.end r.start) p ≡ done (c, left) q
      → fill (exacts qs) r p ≡ done tt q
  unfolding fill flexible_pass
  fill-exacts qs r p q c left h bounded run =
      let fixed : total_fixed 0 (exacts qs) ≡ sum qs =
        total_fixed-exacts 0 qs (omega arith) ∙ omega arith in
      let total : add64 (total_fixed 0 (exacts qs)) (min_flexible 0 (exacts qs)) ≡ sum qs =
        rw (fixed, min_flexible-exacts) (add64-eq (sum qs) 0 (omega arith) ∙ omega arith) in
      let enough : ltb (sub64 r.end r.start) (sum qs) ≡ false =
        ge→ltb _ _ (omega (arith, sub64-eq r.end r.start)) in
      rw (total, enough, run, flexible_requests-exacts)

  pub no_layout : (p : Planner A) → current_layout (plan_initialize_disk p) ≡ some []
  unfolding plan_initialize_disk layout_of
  no_layout p = refl

  -- With a usable range that starts at an aligned position and ends below 2 ^ 64, and exact requests
  -- of positive aligned sizes, fewer than 2 ^ 32 - 1, that fit, the whole-disk strategy succeeds,
  -- whatever was on the disk and planned before. The layout is then the requested partitions, in
  -- order, each where the last one ends, numbered from 1; the changes are their additions alone, and
  -- the disk is marked to be wiped.
  pub apply-exact :
      (qs : List (ℕ × Option A)) (p : Planner A)
      → All IsWhole qs
      → is_aligned p.usable_start partition_alignment ≡ true
      → p.usable_start + sum qs ≤ p.usable_end
      → p.usable_end < u64_mod
      → 1 + length qs < u32_mod
      → (q : Planner A) × (apply
            (record { allocation = initialize_whole_disk; requests = exacts qs })
            p
          ≡ done tt q)
        × (current_layout q ≡ some (consecutive p.usable_start 1 qs))
        × (q.changes ≡ additions p.usable_start 1 qs)
        × (q.wipe_disk ≡ true)
  unfolding apply plan_initialize_disk
  apply-exact qs p w al hi bounded ids =
      let p₀ = plan_initialize_disk p in
      let (q, c, left, run, laid, changes, wiped) =
        exact_pass-consecutive qs p.usable_start (sub64 p.usable_end p.usable_start) p₀ [] w al
          (omega arith) hi bounded (no_layout p) tt ids in
      (
        q,
        fill-exacts qs (new_region p.usable_start p.usable_end) p₀ q c left (omega arith) bounded
            run,
        laid,
        changes,
        wiped,
      )
