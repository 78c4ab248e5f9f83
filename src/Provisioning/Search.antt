-- ===== src/Provisioning/Search.antt =====
-- The search for devices ends: crates/provisioning/src/provisioner.rs, `create_plans_for_strategy`.
use disks_rs.Base.{
  All-keep_if, not-true, ℕ, zero, suc, ◌<◌, ◌≤◌, ◌≡◌, refl, ap, ◌∙◌, sym, subst, arith, inl, inr,
  String, Bool, true, false, not, ◌||◌, Option, some, List, [], ◌∷◌, ◌++◌, All, Any, any, ◌==◌,
  ==_refl, Bool-cases, Option-cases, if◌then◌else◌,
}
use disks_rs.Attributes.{PartitionAttributes}
use disks_rs.Types.{GptTypes, Constraints}
use disks_rs.Strategy
use disks_rs.Strategy.{Strategy, add_request, initialize_whole_disk}
use disks_rs.Provisioning.Commands.{Command, create_partition, create_partition_table, find_disk}
use disks_rs.Provisioning.Parser.{StrategyDefinition}
use disks_rs.Provisioning.Provisioner.{
  Pooled, Assignments, Plans, plans, panicked, diverged, Provisioner, is_assigned, matching_devices,
  contains_key, assign, update, also, branches, apply_all, final_plan, request_of, walk,
  strategy_parents, commands_of, create_plans_for_strategy,
}
use disks_rs.Provisioning.Devices.{
  addresses, addresses-append, addresses-update, matching-unassigned,
}

abbrev contains : ℕ → List ℕ → Bool
contains a used = any (λ u. u == a) used

-- The number of devices in the pool whose address is not in use.
abbrev pub unused : List Pooled → List ℕ → ℕ
unused [] used = 0
unused (d ∷ ds) used = if contains d.address used then unused ds used else suc (unused ds used)

contains-append :
    (a b : ℕ) (used : List ℕ) → contains a (used ++ b ∷ []) ≡ (contains a used || (b == a))
contains-append a b [] = ground arith
contains-append a b (u ∷ used) = ground (arith, contains-append a b used)

unused-append :
    (ds : List Pooled) (b : ℕ) (used : List ℕ) → unused ds (used ++ b ∷ []) ≤ unused ds used
unused-append [] b used = omega arith
unused-append (d ∷ ds) b used =
    ground (arith, contains-append d.address b used, unused-append ds b used)

-- A device of the pool that is taken into use is one less to come.
unused-take :
    (ds : List Pooled) (b : ℕ) (used : List ℕ)
    → Any (λ d. d.address ≡ b) ds
    → contains b used ≡ false
    → unused ds (used ++ b ∷ []) < unused ds used
unused-take [] b used e h = elim e [ ]
unused-take (d ∷ ds) b used (inl e) h =
    let free : contains d.address used ≡ false = ap (λ a. contains a used) e ∙ h in
    let same : (b == d.address) ≡ true = ap (λ a. b == a) e ∙ ==_refl b in
    ground (arith, contains-append d.address b used, unused-append ds b used)
unused-take (d ∷ ds) b used (inr e) h =
    ground (arith, contains-append d.address b used, unused-take ds b used e h)

-- Each device of a filtered pool is one of the pool.
All-later :
    {B : Type 0} (R : B → B → Type 0) (y : B) (xs zs : List B)
    → All (λ x. Any (R x) xs) zs
    → All (λ x. Any (R x) (y ∷ xs)) zs
All-later R y xs [] h = tt
All-later R y xs (z ∷ zs) h = (inr h.0, All-later R y xs zs h.1)

All-itself :
    {B : Type 0} (R : B → B → Type 0) (xs : List B) → ((x : B) → R x x) → All (λ x. Any (R x) xs) xs
All-itself R [] r = tt
All-itself R (x ∷ xs) r = (inl (r x), All-later R x xs xs (All-itself R xs r))

abbrev SameAddress : Pooled → Pooled → Type 0
SameAddress d e = e.address ≡ d.address

-- The fuel did not run out.
abbrev pub Ends : {A : Type 0} → Plans A → Type 0
Ends diverged = ⊥
Ends _ = Unit

module _ {A : Type 0} where
  matching-Any :
      (c : Option Constraints) (devices : List Pooled) (xs : Assignments A)
      → All (λ d. Any (SameAddress d) devices) (matching_devices c devices xs)
  unfolding matching_devices
  matching-Any c devices xs =
      All-keep_if _ _ _ (All-keep_if _ _ _ (All-itself SameAddress devices (λ x. refl)))

  is_assigned-addresses :
      (a : ℕ) (xs : Assignments A) → is_assigned a xs ≡ contains a (addresses xs)
  is_assigned-addresses a [] = refl
  is_assigned-addresses a (x ∷ xs) = ground (arith, is_assigned-addresses a xs)

  Ends-also : (x y : Plans A) → Ends x → Ends y → Ends (also x y)
  Ends-also (plans ps) (plans qs) h k = tt
  Ends-also (plans ps) panicked h k = tt
  Ends-also (plans ps) diverged h k = k
  Ends-also panicked y h k = tt
  Ends-also diverged y h k = h

  addresses-assign :
      (name : String) (d : Pooled) (xs : Assignments A)
      → addresses (assign name d xs) ≡ addresses xs ++ d.address ∷ []
  unfolding assign
  addresses-assign name d xs = addresses-append xs _

  -- Each branch of the search has a device less to come.
  branches-Ends :
      (call : Assignments A → Plans A) (name : String) (devices ds : List Pooled)
      (xs : Assignments A) (n : ℕ)
      → ((ys : Assignments A) → unused devices (addresses ys) < n → Ends (call ys))
      → unused devices (addresses xs) ≤ n
      → All (λ d. Any (SameAddress d) devices) ds
      → All (λ d. not (is_assigned d.address xs) ≡ true) ds
      → Ends (branches call name ds xs)
  branches-Ends call name devices [] xs n c le h k = tt
  branches-Ends call name devices (d ∷ ds) xs n c le h k =
      let free : contains d.address (addresses xs) ≡ false =
        sym (is_assigned-addresses d.address xs) ∙ not-true _ k.0 in
      let less = unused-take devices d.address (addresses xs) h.0 free in
      Ends-also (call (assign name d xs)) (branches call name ds xs)
        (c (assign name d xs)
          (omega (arith, less, ap (unused devices) (addresses-assign name d xs))))
        (branches-Ends call name devices ds xs n c le h.1 k.1)

final-Ends :
    {G U : Type 0} (s : StrategyDefinition) (xs : Assignments (PartitionAttributes G U))
    → Ends (final_plan s xs)
unfolding final_plan
final-Ends s xs = elim (Option-cases (apply_all xs)) [
  | inl e ↦ simp (e, final_plan) tt
  | inr (r, e) ↦ simp (e, final_plan) tt
]

module _ {G U : Type 0} (t : GptTypes G) where
  walk-Ends :
      (call : Assignments (PartitionAttributes G U) → Plans (PartitionAttributes G U))
      (devices : List Pooled) (s : StrategyDefinition) (cs : List Command)
      (xs : Assignments (PartitionAttributes G U)) (n : ℕ)
      → ((ys : Assignments (PartitionAttributes G U))
          → unused devices (addresses ys) < n
          → Ends (call ys))
      → unused devices (addresses xs) ≤ n
      → Ends (walk t call devices s cs xs)
  unfolding walk
  walk-Ends call devices s [] xs n c le = final-Ends s xs
  walk-Ends call devices s (create_partition_table k ∷ cs) xs n c le =
      walk-Ends call devices s cs (update k.disk (λ _. Strategy.new initialize_whole_disk) xs) n c
        (subst (λ l. unused devices l ≤ n) (sym (addresses-update k.disk _ xs)) le)
  walk-Ends call devices s (create_partition k ∷ cs) xs n c le =
      walk-Ends call devices s cs (update k.disk (add_request (request_of t k)) xs) n c
        (subst (λ l. unused devices l ≤ n) (sym (addresses-update k.disk _ xs)) le)
  walk-Ends call devices s (find_disk k ∷ cs) xs n c le =
      elim (Bool-cases (contains_key k.name xs)) [
        | inl e ↦ simp (e, walk) (walk-Ends call devices s cs xs n c le)
        | inr e ↦
            simp (e, walk)
              (branches-Ends call k.name devices (matching_devices k.constraints devices xs) xs n c
                le (matching-Any k.constraints devices xs)
                (matching-unassigned k.constraints devices xs))
      ]

  -- If the chain of a strategy's parents is found, the search for devices ends: a depth of calls
  -- above the number of devices that are not in use is enough.
  pub create_plans-Ends :
      (fuel depth : ℕ) (p : Provisioner) (s : StrategyDefinition) (chain : List StrategyDefinition)
      (xs : Assignments (PartitionAttributes G U))
      → strategy_parents depth p s ≡ some chain
      → unused p.devices (addresses xs) < fuel
      → Ends (create_plans_for_strategy t fuel depth p s xs)
  unfolding create_plans_for_strategy
  create_plans-Ends zero depth p s chain xs e h = absurd (omega arith)
  create_plans-Ends (suc fuel) depth p s chain xs e h =
      simp (e, create_plans_for_strategy)
        (walk-Ends (create_plans_for_strategy t fuel depth p s) p.devices s (commands_of chain) xs
          (unused p.devices (addresses xs))
          (λ ys k. create_plans-Ends fuel depth p s chain ys e (omega arith)) (omega arith))
