-- ===== src/Strategy/Remaining.antt =====
-- A whole-disk strategy of exact requests and one for all that remains fills the disk:
-- crates/partitioning/src/strategy.rs, `apply`.
use mathlib.Core.List.{append-nil, append_assoc}
use disks_rs.Base.{
  subst, ℕ, ◌+◌, ◌-◌, ◌≤◌, ◌<◌, ◌≡◌, refl, sym, ap, ◌∙◌, true, false, Option, none, some, List, [],
  ◌∷◌, ◌++◌, arith, All, All-map, All-append, length, add64, sub64, add32, add64-eq, sub64-eq,
  add32-eq, u64_mod, u32_mod, done, continue, ltb, ge→ltb,
}
use disks_rs.Sizing.{is_aligned}
use disks_rs.Planner.{
  Region, Planner, new_region, current_layout, partition_alignment,
  plan_add_partition_with_attributes, plan_initialize_disk,
}
use disks_rs.Planner.Adding.{planned}
use disks_rs.Planner.History.{region_of, layout-append_add}
use disks_rs.Strategy.{
  remaining, PartitionRequest, Flexible, initialize_whole_disk, exact_pass, fill, apply,
  flexible_pass, flexible_size, flexible_requests, attributes_at, total_fixed, min_flexible,
}
use disks_rs.Strategy.Exact.{
  exacts, sum, consecutive, IsWhole, is_aligned-+, plan_add-behind, no_layout,
}

abbrev rest_of : ℕ → Flexible
rest_of i = record { index = i; least = 0; most = none }

module _ {A : Type 0} where
  -- A request for what remains, and what the first passes make of it behind exact requests.
  abbrev pub remainder : Option A → PartitionRequest A
  remainder a = record { size = remaining; attributes = a }

  abbrev pub filling : List (ℕ × Option A) → Option A → List (PartitionRequest A)
  filling qs a = exacts qs ++ remainder a ∷ []

  total_fixed-filling :
      (k : ℕ) (qs : List (ℕ × Option A)) (a : Option A)
      → k + sum qs < u64_mod
      → total_fixed k (filling qs a) ≡ k + sum qs
  total_fixed-filling k [] a h = omega arith
  total_fixed-filling k ((n, b) ∷ qs) a h =
      let e : add64 k n ≡ k + n = add64-eq k n (omega arith) in
      rw (e, total_fixed) (total_fixed-filling (k + n) qs a (omega arith) ∙ omega arith)

  min_flexible-filling :
      (k : ℕ) (qs : List (ℕ × Option A)) (a : Option A) → min_flexible k (filling qs a) ≡ k
  min_flexible-filling k [] a = refl
  min_flexible-filling k ((n, b) ∷ qs) a = min_flexible-filling k qs a

  flexible_requests-filling :
      (k : ℕ) (qs : List (ℕ × Option A)) (a : Option A)
      → flexible_requests k (filling qs a) ≡ rest_of (k + length qs) ∷ []
  flexible_requests-filling k [] a = ap (λ i. rest_of i ∷ []) (omega arith)
  flexible_requests-filling k ((n, b) ∷ qs) a =
      flexible_requests-filling (k + 1) qs a ∙ ap (λ i. rest_of i ∷ []) (omega arith)

  attributes_at-filling :
      (qs : List (ℕ × Option A)) (a : Option A) → attributes_at (filling qs a) (length qs) ≡ a
  attributes_at-filling [] a = refl
  attributes_at-filling ((n, b) ∷ qs) a = attributes_at-filling qs a

  -- What the pass over the exact requests comes to: the position, the space left and the planner.
  pub record Filled (qs : List (ℕ × Option A)) (a : Option A) (c left : ℕ) (p : Planner A)
      (l : List (Region A)) : Type 0 where
    planner : Planner A
    run : exact_pass (filling qs a) c left p ≡ done (c + sum qs, left - sum qs) planner
    same_start : planner.usable_start ≡ p.usable_start
    same_end : planner.usable_end ≡ p.usable_end
    next_id : planner.next_partition_id ≡ p.next_partition_id + length qs
    layout : current_layout planner ≡ some (l ++ consecutive c p.next_partition_id qs)
    behind : All (λ r. r.end ≤ c + sum qs) (l ++ consecutive c p.next_partition_id qs)
    aligned : is_aligned (c + sum qs) partition_alignment ≡ true

  exact_pass-Filled :
      (qs : List (ℕ × Option A)) (a : Option A) (c left : ℕ) (p : Planner A) (l : List (Region A))
      → All IsWhole qs
      → is_aligned c partition_alignment ≡ true
      → p.usable_start ≤ c
      → c + sum qs ≤ p.usable_end
      → p.usable_end < u64_mod
      → sum qs ≤ left
      → left < u64_mod
      → current_layout p ≡ some l
      → All (λ r. r.end ≤ c) l
      → p.next_partition_id + length qs < u32_mod
      → Filled qs a c left p l
  unfolding exact_pass
  exact_pass-Filled [] a c left p l w al lo hi bounded fits small here ends ids = record {
    planner = p;
    run = ap (λ k. done (k, left) p) (omega arith) ∙ ap (λ k. done (c + 0, k) p) (omega arith);
    same_start = refl;
    same_end = refl;
    next_id = omega arith;
    layout = here ∙ ap some (sym (append-nil l));
    behind = rw (append-nil) (All-map _ _ l (λ r k. omega arith) ends);
    aligned = ap (λ k. is_aligned k partition_alignment) (omega arith) ∙ al;
  }
  exact_pass-Filled ((n, b) ∷ qs) a c left p l w al lo hi bounded fits small here ends ids =
      let i = p.next_partition_id in
      let i' : add32 i 1 ≡ i + 1 = add32-eq i 1 (omega arith) in
      let al' = is_aligned-+ c n al w.0.0 in
      let p' = planned c (c + n) b p in
      let r = region_of c (c + n) i b in
      let e : add64 c n ≡ c + n = add64-eq c n (omega arith) in
      let space : sub64 left n ≡ left - n = sub64-eq left n (omega arith) small in
      let step : plan_add_partition_with_attributes c (add64 c n) b p ≡ done tt p' = rw e (
        plan_add-behind c (c + n) b p l al al' lo (omega (arith, w.0.1)) (omega arith) here ends) in
      let f =
        exact_pass-Filled qs a (c + n) (left - n) p' (l ++ r ∷ []) w.1 al' (omega arith)
          (omega arith) bounded (omega arith) (omega arith)
          (layout-append_add p.original_regions p.changes c (c + n) i b l here)
          (All-append (λ s. s.end ≤ c + n) l (r ∷ [])
            (All-map (λ s. s.end ≤ c) (λ s. s.end ≤ c + n) l (λ s k. omega arith) ends)
            (omega arith, tt))
          (omega (arith, i')) in
      let grown : (l ++ r ∷ []) ++ consecutive (c + n) (add32 i 1) qs
          ≡ l ++ consecutive c i ((n, b) ∷ qs) =
        append_assoc l (r ∷ []) (consecutive (c + n) (add32 i 1) qs)
        ∙ ap (λ k. l ++ r ∷ consecutive (c + n) k qs) i' in
      record {
        planner = f.planner;
        run =
            ap (λ o. continue o (λ _. exact_pass (filling qs a) (add64 c n) (sub64 left n))) step
            ∙ ap (λ k. exact_pass (filling qs a) k (sub64 left n) p') e
            ∙ ap (λ k. exact_pass (filling qs a) (c + n) k p') space
            ∙ f.run
            ∙ ap (λ k. done (k, left - n - sum qs) f.planner) (omega arith)
            ∙ ap (λ k. done (c + (n + sum qs), k) f.planner) (omega arith);
        same_start = f.same_start;
        same_end = f.same_end;
        next_id = omega (arith, f.next_id, i');
        layout = f.layout ∙ ap some grown;
        behind =
            subst (All (λ s. s.end ≤ c + (n + sum qs))) grown
              (All-map _ _ _ (λ s k. omega (arith, k)) f.behind);
        aligned = ap (λ k. is_aligned k partition_alignment) (omega arith) ∙ f.aligned;
      }

  -- One request for what remains takes all that is left.
  flexible_pass-rest :
      (requests : List (PartitionRequest A)) (i c l : ℕ) (a : Option A) (p q : Planner A)
      → c + l < u64_mod
      → attributes_at requests i ≡ a
      → plan_add_partition_with_attributes c (c + l) a p ≡ done tt q
      → flexible_pass requests (rest_of i ∷ []) c l p ≡ done tt q
  unfolding flexible_pass
  flexible_pass-rest requests i c l a p q bounded e h =
      let size : flexible_size 0 l (rest_of i) ≡ l = unfold flexible_size in omega arith in
      let end : add64 c l ≡ c + l = add64-eq c l bounded in
      rw (ge→ltb l 0 (omega arith)) (rw (size, end, e, h))

  fill-filling :
      (qs : List (ℕ × Option A)) (a : Option A) (r : Region A) (p q m : Planner A) (c l : ℕ)
      → r.start ≤ r.end
      → sum qs ≤ r.end - r.start
      → r.end < u64_mod
      → exact_pass (filling qs a) r.start (r.end - r.start) p ≡ done (c, l) m
      → flexible_pass (filling qs a) (rest_of (length qs) ∷ []) c l m ≡ done tt q
      → fill (filling qs a) r p ≡ done tt q
  unfolding fill
  fill-filling qs a r p q m c l order fits bounded run passed =
      let space : sub64 r.end r.start ≡ r.end - r.start = sub64-eq r.end r.start order bounded in
      let fixed : total_fixed 0 (filling qs a) ≡ sum qs =
        total_fixed-filling 0 qs a (omega arith) ∙ omega arith in
      let total : add64 (total_fixed 0 (filling qs a)) (min_flexible 0 (filling qs a)) ≡ sum qs =
        rw (fixed, min_flexible-filling) (add64-eq (sum qs) 0 (omega arith) ∙ omega arith) in
      let enough : ltb (r.end - r.start) (sum qs) ≡ false = ge→ltb _ _ fits in
      let found : flexible_requests 0 (filling qs a) ≡ rest_of (length qs) ∷ [] =
        flexible_requests-filling 0 qs a ∙ ap (λ i. rest_of i ∷ []) (omega arith) in
      rw (total, space, enough, run, found, passed)

  -- On a disk whose usable range is aligned, not empty and ends below 2 ^ 64, take exact requests of
  -- positive aligned sizes, fewer than 2 ^ 32 - 2, that leave some space, followed by one request for
  -- what remains. The whole-disk strategy succeeds, whatever was on the disk and planned before, and
  -- the layout is then the exact partitions, in order and without gaps, and behind them one that
  -- reaches to the end of the usable range.
  pub apply-filling :
      (qs : List (ℕ × Option A)) (a : Option A) (p : Planner A)
      → All IsWhole qs
      → is_aligned p.usable_start partition_alignment ≡ true
      → is_aligned p.usable_end partition_alignment ≡ true
      → p.usable_start + sum qs < p.usable_end
      → p.usable_end < u64_mod
      → 2 + length qs < u32_mod
      → (q : Planner A) × (apply
            (record { allocation = initialize_whole_disk; requests = filling qs a })
            p
          ≡ done tt q)
        × (current_layout q
            ≡ some (
                consecutive p.usable_start 1 qs
                ++ region_of (p.usable_start + sum qs) p.usable_end (1 + length qs) a ∷ []))
  unfolding apply plan_initialize_disk fill
  apply-filling qs a p w al bl hi bounded ids =
      let p₀ = plan_initialize_disk p in
      let start = p.usable_start in
      let left = p.usable_end - start in
      let f =
        exact_pass-Filled qs a start left p₀ [] w al (omega arith) (omega arith) bounded
          (omega arith) (omega arith) (no_layout p) tt (omega arith) in
      let c = start + sum qs in
      let l = left - sum qs in
      let ends : c + l ≡ p.usable_end = omega arith in
      let q = planned c p.usable_end a f.planner in
      let step : plan_add_partition_with_attributes c (c + l) a f.planner ≡ done tt q = rw ends (
        plan_add-behind c p.usable_end a f.planner (consecutive start 1 qs) f.aligned bl
          (omega (arith, f.same_start)) (omega arith) (omega (arith, f.same_end)) f.layout
          f.behind) in
      let passed =
        flexible_pass-rest (filling qs a) (length qs) c l a f.planner q (omega arith)
          (attributes_at-filling qs a) step in
      (
        q,
        fill-filling qs a (new_region start p.usable_end) p₀ q f.planner c l (omega arith)
            (omega arith) bounded f.run passed,
        layout-append_add f.planner.original_regions f.planner.changes c p.usable_end
              f.planner.next_partition_id a (consecutive start 1 qs) f.layout
            ∙ ap (λ i. some (consecutive start 1 qs ++ region_of c p.usable_end i a ∷ []))
                f.next_id,
      )
