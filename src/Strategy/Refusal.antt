-- ===== src/Strategy/Refusal.antt =====
-- Requests with a least size that are refused although they fit: crates/partitioning/src/
-- strategy.rs, the flexible pass of `apply`.
use disks_rs.Base.{
  ap, ◌∙◌, false, ℕ, ◌+◌, ◌-◌, ◌/◌, ◌≤◌, ◌<◌, ◌≡◌, ◌≢◌, arith, Option, none, List, [], ◌∷◌, add64,
  sub64, add64-eq, sub64-eq, u64_mod, Exec, Outcome, done, fail, panic, fail≢done, panic≢done, ltb,
  lt→ltb, ge→ltb,
}
use disks_rs.Planner.{PlanError, Region, new_region, Planner, plan_initialize_disk}
use disks_rs.Strategy.{
  at_least, PartitionRequest, Flexible, initialize_whole_disk, apply, fill, exact_pass, or_clean_up,
  flexible_pass, flexible_size,
}

abbrev least : ℕ → ℕ → Flexible
least i n = record { index = i; least = n; most = none }

module _ {A : Type 0} where
  -- A flexible request for more than is left never succeeds.
  short :
      (qs : List (PartitionRequest A)) (f : Flexible) (fs : List Flexible) (c l : ℕ)
      (p q : Planner A)
      → l < f.least
      → flexible_pass qs (f ∷ fs) c l p ≢ done tt q
  unfolding flexible_pass
  short qs f fs c l p q h e = fail≢done (rw (lt→ltb l f.least h) at e)

  or_clean_up-done :
      (o : Outcome PlanError (Planner A) Unit) (rest : Exec PlanError (Planner A) Unit)
      (q : Planner A)
      → or_clean_up o rest ≡ done tt q
      → ((p : Planner A) → rest p ≢ done tt q)
      → ⊥
  or_clean_up-done (done _ p) rest q h k = k p h
  or_clean_up-done (fail e p) rest q h k = fail≢done h
  or_clean_up-done panic rest q h k = panic≢done h

  -- The first request gets its least size and half of the space, and the second one what is left.
  flexible_pass-refuses :
      (qs : List (PartitionRequest A)) (c l m n : ℕ) (p q : Planner A)
      → l < u64_mod
      → m + l / 2 ≤ l
      → l < m + l / 2 + n
      → flexible_pass qs (least 0 m ∷ least 1 n ∷ []) c l p ≢ done tt q
  unfolding flexible_pass flexible_size
  flexible_pass-refuses qs c l m n p q bounded fits much e =
      let size : add64 m (l / 2) ≡ m + l / 2 = add64-eq m (l / 2) (omega arith) in
      let left : sub64 l (m + l / 2) ≡ l - (m + l / 2) = sub64-eq l (m + l / 2) fits bounded in
      or_clean_up-done _
        (flexible_pass qs (least 1 n ∷ []) (add64 c (add64 m (l / 2))) (sub64 l (add64 m (l / 2))))
        q (rw (ge→ltb l m (omega arith)) at e)
        (λ p'.
          short qs (least 1 n) [] _ (sub64 l (add64 m (l / 2))) p' q
            (rw (size, left) (omega arith)))

  abbrev pub at_leasts : ℕ → Option A → ℕ → Option A → List (PartitionRequest A)
  at_leasts m a n b =
      record { size = at_least m; attributes = a }
      ∷ record { size = at_least n; attributes = b }
      ∷ []

  fill-refuses :
      (r : Region A) (m n : ℕ) (a b : Option A) (p q : Planner A)
      → r.start ≤ r.end
      → r.end < u64_mod
      → m + n ≤ r.end - r.start
      → m + (r.end - r.start) / 2 ≤ r.end - r.start
      → r.end - r.start < m + (r.end - r.start) / 2 + n
      → fill (at_leasts m a n b) r p ≢ done tt q
  unfolding fill exact_pass
  fill-refuses r m n a b p q order bounded sum fits much e =
      let left = r.end - r.start in
      let space : sub64 r.end r.start ≡ left = sub64-eq r.end r.start order bounded in
      let total : add64 0 (add64 (add64 0 m) n) ≡ m + n =
        ap (λ k. add64 0 (add64 k n)) (add64-eq 0 m (omega arith) ∙ omega arith)
        ∙ ap (add64 0) (add64-eq m n (omega arith))
        ∙ add64-eq 0 (m + n) (omega arith)
        ∙ omega arith in
      let enough : ltb left (m + n) ≡ false = ge→ltb left (m + n) sum in
      flexible_pass-refuses (at_leasts m a n b) r.start left m n p q (omega arith) fits much
        (rw (total, space, enough) at e)

  -- Take two requests with least sizes m and n on a whole disk whose usable range ends below
  -- 2 ^ 64. They fit into its size S, but n is greater than what m and half of S leave of S. Then
  -- the strategy does not succeed.
  pub apply-refuses :
      (m n : ℕ) (a b : Option A) (p q : Planner A)
      → p.usable_start ≤ p.usable_end
      → p.usable_end < u64_mod
      → m + n ≤ p.usable_end - p.usable_start
      → m + (p.usable_end - p.usable_start) / 2 ≤ p.usable_end - p.usable_start
      → p.usable_end - p.usable_start < m + (p.usable_end - p.usable_start) / 2 + n
      → apply (record { allocation = initialize_whole_disk; requests = at_leasts m a n b }) p
        ≢ done tt q
  unfolding apply plan_initialize_disk
  apply-refuses m n a b p q order bounded sum fits much e =
      fill-refuses (new_region p.usable_start p.usable_end) m n a b (plan_initialize_disk p) q order
        bounded sum fits much e
