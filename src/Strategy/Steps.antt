-- ===== src/Strategy/Steps.antt =====
-- A strategy changes the planner by the planner's own operations alone.
use disks_rs.Base.{
  ℕ, zero, suc, ◌≡◌, refl, inl, inr, Bool-cases, Option, none, some, List, [], ◌∷◌, arith, length,
  add64, sub64, Exec, state_of, some-inj, Outcome, done, fail, panic, continue, ltb,
}
use disks_rs.Planner.{
  PlanError, Region, Planner, place, plan_add_partition_with_attributes, current_layout, undo,
  has_changes,
}
use disks_rs.Planner.Steps.{add, undone, initialized, Reach, here, next, Reach-IsDisjoint}
use disks_rs.Planner.History.{IsDisjoint}
use disks_rs.Strategy.{
  SizeRequirement, exact, PartitionRequest, Strategy, AllocationStrategy, initialize_whole_disk,
  largest_free, first_fit, specific_region, Flexible, exact_one, exact_pass, or_clean_up,
  undo_while, undo_all, flexible_pass, fill, apply, target, or_no_free, find_free_regions,
  total_fixed, min_flexible, flexible_requests, max_by_size, head?,
}

module _ {A : Type 0} where
  -- A refused addition leaves the planner as it was.
  pub plan_add-fail :
      (s e : ℕ) (a : Option A) (p q : Planner A) (err : PlanError)
      → plan_add_partition_with_attributes s e a p ≡ fail err q
      → q ≡ p
  unfolding plan_add_partition_with_attributes place
  plan_add-fail s e a p q err h = ground arith

  Reach-trans : (p q r : Planner A) → Reach p q → Reach q r → Reach p r
  Reach-trans p q r h here = h
  Reach-trans p q r h (next {q = m} k s) = next (Reach-trans p q m h k) s

-- Where an outcome leaves a planner, the planner's operations lead from `p` to it.
abbrev pub Leads : {A B : Type 0} → Planner A → Outcome PlanError (Planner A) B → Type 0
Leads p (done _ q) = Reach p q
Leads p (fail _ q) = Reach p q
Leads p panic = Unit

module _ {A B : Type 0} where
  Leads-trans :
      (p q : Planner A) (o : Outcome PlanError (Planner A) B) → Reach p q → Leads q o → Leads p o
  Leads-trans p q (done b r) h k = Reach-trans p q r h k
  Leads-trans p q (fail e r) h k = Reach-trans p q r h k
  Leads-trans p q panic h k = tt

module _ {A B C : Type 0} where
  Leads-continue :
      (p : Planner A) (o : Outcome PlanError (Planner A) B) (f : B → Exec PlanError (Planner A) C)
      → Leads p o
      → ((b : B) (q : Planner A) → Leads q (f b q))
      → Leads p (continue o f)
  Leads-continue p (done b q) f h k = Leads-trans p q (f b q) h (k b q)
  Leads-continue p (fail e q) f h k = h
  Leads-continue p panic f h k = tt

module _ {A : Type 0} where
  plan_add-Leads :
      (s e : ℕ) (a : Option A) (p : Planner A)
      → Leads p (plan_add_partition_with_attributes s e a p)
  plan_add-Leads s e a p = go (plan_add_partition_with_attributes s e a p) refl
    where
      go :
          (o : Outcome PlanError (Planner A) Unit)
          → plan_add_partition_with_attributes s e a p ≡ o
          → Leads p o
      go (done _ q) h = next here (add s e a h)
      go (fail err q) h = rw (plan_add-fail s e a p q err h) here
      go panic h = tt

  undo_while-Reach : (fuel : ℕ) (p : Planner A) → Reach p (undo_while fuel p)
  unfolding undo_while
  undo_while-Reach zero p = here
  undo_while-Reach (suc fuel) p = elim (Bool-cases (has_changes p)) [
    | inl more ↦
        rw (more, undo_while)
          (Reach-trans p (undo p).0 (undo_while fuel (undo p).0) (next here (undone refl))
            (undo_while-Reach fuel (undo p).0))
    | inr clear ↦ rw (clear, undo_while) here
  ]

  undo_all-Reach : (p : Planner A) → Reach p (undo_all p)
  unfolding undo_all
  undo_all-Reach p = undo_while-Reach (length p.changes) p

  exact_one-Leads :
      (n : SizeRequirement) (a : Option A) (rest : ℕ → ℕ → Exec PlanError (Planner A) (ℕ × ℕ))
      (c l : ℕ) (p : Planner A)
      → ((c l : ℕ) (q : Planner A) → Leads q (rest c l q))
      → Leads p (exact_one n a rest c l p)
  exact_one-Leads (exact n) a rest c l p k =
      Leads-continue p (plan_add_partition_with_attributes c (add64 c n) a p)
        (λ _. rest (add64 c n) (sub64 l n)) (plan_add-Leads c (add64 c n) a p)
        (λ _ q. k (add64 c n) (sub64 l n) q)
  exact_one-Leads _ a rest c l p k = k c l p

  exact_pass-Leads :
      (qs : List (PartitionRequest A)) (c l : ℕ) (p : Planner A) → Leads p (exact_pass qs c l p)
  unfolding exact_pass
  exact_pass-Leads [] c l p = here
  exact_pass-Leads (q ∷ qs) c l p =
      exact_one-Leads q.size q.attributes (λ c l. exact_pass qs c l) c l p (exact_pass-Leads qs)

  or_clean_up-Leads :
      (p : Planner A) (o : Outcome PlanError (Planner A) Unit)
      (rest : Exec PlanError (Planner A) Unit)
      → Leads p o
      → ((q : Planner A) → Leads q (rest q))
      → Leads p (or_clean_up o rest)
  or_clean_up-Leads p (done _ q) rest h k = Leads-trans p q (rest q) h (k q)
  or_clean_up-Leads p (fail e q) rest h k = Reach-trans p q (undo_all q) h (undo_all-Reach q)
  or_clean_up-Leads p panic rest h k = tt

  flexible_pass-Leads :
      (qs : List (PartitionRequest A)) (fs : List Flexible) (c l : ℕ) (p : Planner A)
      → Leads p (flexible_pass qs fs c l p)
  unfolding flexible_pass
  flexible_pass-Leads qs [] c l p = here
  flexible_pass-Leads qs (f ∷ fs) c l p = elim (Bool-cases (ltb l f.least)) [
    | inl short ↦ rw short (undo_all-Reach p)
    | inr enough ↦
        rw enough
          (or_clean_up-Leads p _ _ (plan_add-Leads c _ _ p) (λ q. flexible_pass-Leads qs fs _ _ q))
  ]

  or_no_free-Leads : (r : Option (Region A)) (p : Planner A) → Leads p (or_no_free r p)
  or_no_free-Leads none p = here
  or_no_free-Leads (some r) p = here

  target-Leads : (a : AllocationStrategy A) (p : Planner A) → Leads p (target a p)
  unfolding target
  target-Leads initialize_whole_disk p = next here (initialized refl)
  target-Leads largest_free p =
      elim (find_free_regions p)
        as (λ o. Leads p (elim o [ none ↦ panic | some l ↦ or_no_free (max_by_size l) p ])) [
          | none ↦ tt
          | some l ↦ or_no_free-Leads (max_by_size l) p
        ]
  target-Leads first_fit p =
      elim (find_free_regions p)
        as (λ o. Leads p (elim o [ none ↦ panic | some l ↦ or_no_free (head? l) p ])) [
          | none ↦ tt
          | some l ↦ or_no_free-Leads (head? l) p
        ]
  target-Leads (specific_region r) p = here

  fill-Leads :
      (qs : List (PartitionRequest A)) (r : Region A) (p : Planner A) → Leads p (fill qs r p)
  unfolding fill
  fill-Leads qs r p =
      elim (Bool-cases (ltb (sub64 r.end r.start) (add64 (total_fixed 0 qs) (min_flexible 0 qs)))) [
        | inl short ↦ rw short here
        | inr enough ↦ rw enough (
            Leads-continue p (exact_pass qs r.start (sub64 r.end r.start) p)
              (λ (c, l). flexible_pass qs (flexible_requests 0 qs) c l)
              (exact_pass-Leads qs r.start (sub64 r.end r.start) p)
              (λ (c, l) q. flexible_pass-Leads qs (flexible_requests 0 qs) c l q))
      ]

  state_of-Reach :
      (p q : Planner A) (o : Outcome PlanError (Planner A) Unit)
      → Leads p o
      → state_of o ≡ some q
      → Reach p q
  state_of-Reach p q (done _ r) h e = rw (← some-inj e) h
  state_of-Reach p q (fail _ r) h e = rw (← some-inj e) h
  state_of-Reach p q panic h e = cc

  -- Whatever strategy is applied, and whether it succeeds or fails, it leaves a planner that the
  -- planner's own operations lead to.
  pub apply-Leads : (s : Strategy A) (p : Planner A) → Leads p (apply s p)
  unfolding apply
  apply-Leads s p =
      Leads-continue p (target s.allocation p) (fill s.requests) (target-Leads s.allocation p)
        (fill-Leads s.requests)

  -- Take a planner with no pending changes whose original regions share no position, and apply any
  -- strategy to it. If the outcome, a success or a failure, leaves a planner `q` whose layout can
  -- be computed, no two regions of that layout overlap.
  pub apply-IsDisjoint :
      (s : Strategy A) (p q : Planner A) (l : List (Region A))
      → p.changes ≡ []
      → IsDisjoint p.original_regions
      → state_of (apply s p) ≡ some q
      → current_layout q ≡ some l
      → IsDisjoint l
  apply-IsDisjoint s p q l e d h k =
      Reach-IsDisjoint p q l e d (state_of-Reach p q (apply s p) (apply-Leads s p) h) k
