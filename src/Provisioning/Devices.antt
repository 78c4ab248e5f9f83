-- ===== src/Provisioning/Devices.antt =====
-- The devices of a plan: crates/provisioning/src/provisioner.rs, `create_plans_for_strategy`.
use disks_rs.Base.{
  false≢true, any-false, All-kept, not-true, none≢some, ℕ, zero, suc, ◌≡◌, ◌≢◌, refl, ap, ◌∙◌, sym,
  subst, inl, inr, String, true, false, not, Option, some, some-inj, List, [], ◌∷◌, ◌++◌, All,
  All-append, Pairwise, Pairwise-append_one, ◌==◌, ==_iff, Bool-cases, Option-cases,
}
use disks_rs.Base.Text.{str_eq}
use disks_rs.Attributes.{PartitionAttributes}
use disks_rs.Types.{GptTypes, Constraints}
use disks_rs.Planner.{current_layout}
use disks_rs.Strategy
use disks_rs.Strategy.{Strategy, apply, add_request, initialize_whole_disk}
use disks_rs.Provisioning.Commands.{Command, create_partition, create_partition_table, find_disk}
use disks_rs.Provisioning.Parser.{StrategyDefinition}
use disks_rs.Provisioning.Provisioner.{
  Pooled, Assignments, Plan, Plans, plans, panicked, diverged, Provisioner, Applied, is_assigned,
  matching_devices, contains_key, assign, update, also, branches, left, apply_all, final_plan,
  request_of, walk, strategy_parents, commands_of, create_plans_for_strategy,
}

abbrev pub addresses : {A : Type 0} → Assignments A → List ℕ
addresses [] = []
addresses (a ∷ more) = a.1.device.address ∷ addresses more

-- No two names stand for one and the same device.
abbrev pub IsDistinct : {A : Type 0} → Assignments A → Type 0
IsDistinct assigned = Pairwise ◌≢◌ (addresses assigned)

abbrev pub AllPlans : {A : Type 0} → (Plan A → Type 0) → Plans A → Type 0
AllPlans P (plans ps) = All P ps
AllPlans P _ = Unit

module _ {A : Type 0} where
  pub addresses-append :
      (xs ys : Assignments A) → addresses (xs ++ ys) ≡ addresses xs ++ addresses ys
  addresses-append [] ys = refl
  addresses-append (x ∷ xs) ys = ap (λ l. x.1.device.address ∷ l) (addresses-append xs ys)

  pub addresses-update :
      (key : String) (f : Strategy A → Strategy A) (xs : Assignments A)
      → addresses (update key f xs) ≡ addresses xs
  addresses-update key f [] = refl
  addresses-update key f (x ∷ xs) = elim (Bool-cases (str_eq x.0 key)) [
    | inl e ↦ rw (e, update) refl
    | inr e ↦ rw (e, update) (ap (λ l. x.1.device.address ∷ l) (addresses-update key f xs))
  ]

  unassigned :
      (address : ℕ) (xs : Assignments A)
      → is_assigned address xs ≡ false
      → All (λ n. n ≢ address) (addresses xs)
  unassigned address [] h = tt
  unassigned address (x ∷ xs) h =
      let (here, there) = any-false (λ a. a.1.device.address == address) x xs h in
      (λ same. false≢true here ((==_iff _ _).1 same), unassigned address xs there)

  assign-IsDistinct :
      (name : String) (d : Pooled) (xs : Assignments A)
      → is_assigned d.address xs ≡ false
      → IsDistinct xs
      → IsDistinct (assign name d xs)
  unfolding assign
  assign-IsDistinct name d xs h k =
      subst (Pairwise ◌≢◌) (sym (addresses-append xs _))
        (Pairwise-append_one ◌≢◌ (addresses xs) d.address k (unassigned d.address xs h))

  All-also :
      (P : Plan A → Type 0) (x y : Plans A) → AllPlans P x → AllPlans P y → AllPlans P (also x y)
  All-also P (plans ps) (plans qs) h k = All-append P ps qs h k
  All-also P (plans ps) panicked h k = tt
  All-also P (plans ps) diverged h k = tt
  All-also P panicked y h k = tt
  All-also P diverged y h k = tt

  abbrev pub Distinct : Plans A → Type 0
  Distinct = AllPlans (λ q. IsDistinct q.device_assignments)

  pub matching-unassigned :
      (c : Option Constraints) (devices : List Pooled) (xs : Assignments A)
      → All (λ d. not (is_assigned d.address xs) ≡ true) (matching_devices c devices xs)
  unfolding matching_devices
  matching-unassigned c devices xs = All-kept (λ d. not (is_assigned d.address xs)) _

  branches-Distinct :
      (call : Assignments A → Plans A) (name : String) (ds : List Pooled) (xs : Assignments A)
      → ((ys : Assignments A) → IsDistinct ys → Distinct (call ys))
      → All (λ d. not (is_assigned d.address xs) ≡ true) ds
      → IsDistinct xs
      → Distinct (branches call name ds xs)
  branches-Distinct call name [] xs c h k = tt
  branches-Distinct call name (d ∷ ds) xs c h k =
      All-also _ (call (assign name d xs)) (branches call name ds xs)
        (c (assign name d xs) (assign-IsDistinct name d xs (not-true _ h.0) k))
        (branches-Distinct call name ds xs c h.1 k)

module _ {G U : Type 0} where
  addresses-apply_all :
      (xs : Assignments (PartitionAttributes G U)) (r : Applied G U)
      → apply_all xs ≡ some r
      → addresses r.0 ≡ addresses xs
  unfolding apply_all
  addresses-apply_all [] r h = ap (λ (x : Applied G U). addresses x.0) (sym (some-inj h))
  addresses-apply_all (x ∷ xs) r h = elim (Option-cases (left (apply x.1.strategy x.1.planner))) [
    | inl e ↦ absurd (none≢some (simp (e, apply_all) at h))
    | inr (p, e) ↦ elim (Option-cases (current_layout p)) [
      | inl f ↦ absurd (none≢some (simp (e, f, apply_all) at h))
      | inr (l, f) ↦ elim (Option-cases (apply_all xs)) [
        | inl g ↦ absurd (none≢some (simp (e, f, g, apply_all) at h))
        | inr (q, g) ↦
            ap (λ (y : Applied G U). addresses y.0)
              (sym (some-inj (simp (e, f, g, apply_all) at h)))
            ∙ ap (λ m. x.1.device.address ∷ m) (addresses-apply_all xs q g)
      ]
    ]
  ]

  final-Distinct :
      (s : StrategyDefinition) (xs : Assignments (PartitionAttributes G U))
      → IsDistinct xs
      → Distinct (final_plan s xs)
  unfolding final_plan
  final-Distinct s xs h = elim (Option-cases (apply_all xs)) [
    | inl e ↦ simp (e, final_plan) tt
    | inr (r, e) ↦
        simp (e, final_plan) (subst (Pairwise ◌≢◌) (sym (addresses-apply_all xs r e)) h, tt)
  ]

module _ {G U : Type 0} (t : GptTypes G) where
  walk-Distinct :
      (call : Assignments (PartitionAttributes G U) → Plans (PartitionAttributes G U))
      (devices : List Pooled) (s : StrategyDefinition) (cs : List Command)
      (xs : Assignments (PartitionAttributes G U))
      → ((ys : Assignments (PartitionAttributes G U)) → IsDistinct ys → Distinct (call ys))
      → IsDistinct xs
      → Distinct (walk t call devices s cs xs)
  unfolding walk
  walk-Distinct call devices s [] xs c h = final-Distinct s xs h
  walk-Distinct call devices s (create_partition_table k ∷ cs) xs c h =
      walk-Distinct call devices s cs (update k.disk (λ _. Strategy.new initialize_whole_disk) xs) c
        (subst (Pairwise ◌≢◌) (sym (addresses-update k.disk _ xs)) h)
  walk-Distinct call devices s (create_partition k ∷ cs) xs c h =
      walk-Distinct call devices s cs (update k.disk (add_request (request_of t k)) xs) c
        (subst (Pairwise ◌≢◌) (sym (addresses-update k.disk _ xs)) h)
  walk-Distinct call devices s (find_disk k ∷ cs) xs c h =
      elim (Bool-cases (contains_key k.name xs)) [
        | inl e ↦ simp (e, walk) (walk-Distinct call devices s cs xs c h)
        | inr e ↦
            simp (e, walk)
              (branches-Distinct call k.name (matching_devices k.constraints devices xs) xs c
                (matching-unassigned k.constraints devices xs) h)
      ]

  -- In every plan that is made for a strategy, whatever the pool and the fuel, no two names are
  -- assigned one and the same device, if that holds of the assignments at the start.
  pub create_plans-Distinct :
      (fuel depth : ℕ) (p : Provisioner) (s : StrategyDefinition)
      (xs : Assignments (PartitionAttributes G U))
      → IsDistinct xs
      → Distinct (create_plans_for_strategy t fuel depth p s xs)
  unfolding create_plans_for_strategy
  create_plans-Distinct zero depth p s xs h = tt
  create_plans-Distinct (suc fuel) depth p s xs h =
      elim (Option-cases (strategy_parents depth p s)) [
        | inl e ↦ simp (e, create_plans_for_strategy) tt
        | inr (chain, e) ↦
            simp (e, create_plans_for_strategy)
              (walk-Distinct (create_plans_for_strategy t fuel depth p s) p.devices s
                (commands_of chain) xs (λ ys k. create_plans-Distinct fuel depth p s ys k) h)
      ]
