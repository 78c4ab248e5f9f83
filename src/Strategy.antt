-- ===== src/Strategy.antt =====
-- Allocation strategies over the planner: crates/partitioning/src/strategy.rs.
mod UnitTests
mod Examples
pub mod Exact
pub mod Remaining
pub mod Refusal
pub mod Halves
pub mod ByStart
pub mod FreeRegions
pub mod Cleanup
pub mod Steps
pub mod Text
use disks_rs.Base.{
  ℕ, zero, suc, ◌+◌, ◌/◌, Option, none, some, List, [], ◌∷◌, ◌++◌, min, max, length, get_elem?, ltb,
  leb, ◌==◌, true, false, if◌then◌else◌, add64, sub64, Exec, Outcome, done, fail, panic, continue,
}
use disks_rs.Planner.{
  PlanError, region_out_of_bounds, no_free_regions, Region, Planner, new_region, size,
  current_layout, offsets, has_changes, undo, plan_initialize_disk,
  plan_add_partition_with_attributes,
}

pub data AllocationStrategy (A : Type 0) : Type 0 where
  initialize_whole_disk largest_free first_fit : AllocationStrategy A
  specific_region : Region A → AllocationStrategy A

pub data SizeRequirement : Type 0 where
  exact at_least : ℕ → SizeRequirement
  -- min and max
  range : ℕ → ℕ → SizeRequirement
  remaining : SizeRequirement

pub record PartitionRequest (A : Type 0) : Type 0 where
  pub size : SizeRequirement
  pub attributes : Option A

pub record Strategy (A : Type 0) : Type 0 where
  pub allocation : AllocationStrategy A
  pub requests : List (PartitionRequest A)

-- The entries of `flexible_requests`.
pub record Flexible : Type 0 where
  pub index : ℕ
  pub least : ℕ
  pub most : Option ℕ

module _ {A : Type 0} where
  -- `Strategy::new`
  unfoldable pub new : AllocationStrategy A → Strategy A
  new allocation = record { allocation = allocation; requests = [] }

  unfoldable pub add_request : PartitionRequest A → Strategy A → Strategy A
  add_request request s = record s { requests = s.requests ++ request ∷ [] }

  -- `sort_by_key(|r| r.start)`, a stable sort: a region goes behind those with its key.
  abbrev pub insert_by_start : Region A → List (Region A) → List (Region A)
  insert_by_start r [] = r ∷ []
  insert_by_start r (s ∷ l) = if ltb r.start s.start then r ∷ s ∷ l else s ∷ insert_by_start r l

  pub sort_by_start : List (Region A) → List (Region A) → List (Region A)
  sort_by_start sorted [] = sorted
  sort_by_start sorted (r ∷ l) = sort_by_start (insert_by_start r sorted) l

  -- The loop of `find_free_regions` from the position `current`, with the final region.
  unfoldable pub gaps : ℕ → ℕ → List (Region A) → List (Region A)
  gaps disk_size current [] =
      if ltb current disk_size then new_region current disk_size ∷ [] else []
  gaps disk_size current (r ∷ l) =
      let rest = gaps disk_size r.end l in
      if ltb current r.start then new_region current r.start ∷ rest else rest

  -- `find_free_regions`; `none` is the panic of `current_layout`.
  unfoldable pub find_free_regions : Planner A → Option (List (Region A))
  unfolding gaps sort_by_start
  find_free_regions p = elim (current_layout p) [
    | none ↦ none
    | some layout ↦ some (gaps p.usable_end p.usable_start (sort_by_start [] layout))
  ]

  -- `max_by_key(|r| r.size())`, which returns the last of several maxima.
  unfoldable pub max_by_size : List (Region A) → Option (Region A)
  max_by_size [] = none
  max_by_size (r ∷ l) = elim (max_by_size l) [
    | none ↦ some r
    | some m ↦ if leb (size r) (size m) then some m else some r
  ]

  abbrev pub head? : List (Region A) → Option (Region A)
  head? [] = none
  head? (r ∷ l) = some r

  -- The `ok_or(NoFreeRegions)?` of two allocations.
  abbrev pub or_no_free : Option (Region A) → Exec PlanError (Planner A) (Region A)
  or_no_free none p = fail no_free_regions p
  or_no_free (some r) p = done r p

  -- The region that the partitions go to.
  unfoldable pub target : AllocationStrategy A → Exec PlanError (Planner A) (Region A)
  target initialize_whole_disk p =
      let p' = plan_initialize_disk p in done (new_region p'.usable_start p'.usable_end) p'
  target largest_free p = elim (find_free_regions p) [
    | none ↦ panic
    | some free_regions ↦ or_no_free (max_by_size free_regions) p
  ]
  target first_fit p = elim (find_free_regions p) [
    | none ↦ panic
    | some free_regions ↦ or_no_free (head? free_regions) p
  ]
  target (specific_region region) p = done region p

  -- The sums of the first pass over the requests.
  abbrev pub total_fixed : ℕ → List (PartitionRequest A) → ℕ
  total_fixed sum [] = sum
  total_fixed sum (q ∷ qs) = total_fixed (elim q.size [ exact n ↦ add64 sum n | _ ↦ sum ]) qs

  abbrev pub min_flexible : ℕ → List (PartitionRequest A) → ℕ
  min_flexible sum [] = sum
  min_flexible sum (q ∷ qs) =
      min_flexible (elim q.size [ at_least n ↦ add64 sum n | range n m ↦ add64 sum n | _ ↦ sum ]) qs

  -- The flexible requests, with their positions from `index` on.
  abbrev pub flexible_requests : ℕ → List (PartitionRequest A) → List Flexible
  flexible_requests index [] = []
  flexible_requests index (q ∷ qs) =
      let rest = flexible_requests (index + 1) qs in
      elim q.size [
        | exact n ↦ rest
        | at_least n ↦ record { index = index; least = n; most = none } ∷ rest
        | range n m ↦ record { index = index; least = n; most = some m } ∷ rest
        | remaining ↦ record { index = index; least = 0; most = none } ∷ rest
      ]

  -- `while planner.has_changes() { planner.undo(); }` on fuel.
  undo_while : ℕ → Planner A → Planner A
  undo_while zero p = p
  undo_while (suc fuel) p = elim (has_changes p) [ true ↦ undo_while fuel (undo p).0 | false ↦ p ]

  unfoldable pub undo_all : Planner A → Planner A
  unfolding undo_while undo
  undo_all p = undo_while (length p.changes) p

  -- One round of the pass over the exact requests, from the position and the space left.
  abbrev pub exact_one :
      SizeRequirement
      → Option A
      → (ℕ → ℕ → Exec PlanError (Planner A) (ℕ × ℕ))
      → ℕ
      → ℕ
      → Exec PlanError (Planner A) (ℕ × ℕ)
  exact_one (exact n) attributes rest current left p =
      continue (plan_add_partition_with_attributes current (add64 current n) attributes p)
        (λ _. rest (add64 current n) (sub64 left n))
  exact_one _ attributes rest current left p = rest current left p

  unfoldable pub exact_pass : List (PartitionRequest A) → ℕ → ℕ → Exec PlanError (Planner A) (ℕ × ℕ)
  exact_pass [] current left p = done (current, left) p
  exact_pass (q ∷ qs) current left p =
      exact_one q.size q.attributes (λ c l. exact_pass qs c l) current left p

  -- `self.requests.get(idx).and_then(|r| r.attributes.clone())`
  abbrev pub attributes_at : List (PartitionRequest A) → ℕ → Option A
  attributes_at requests index = elim (get_elem? requests index) [
    | none ↦ none
    | some q ↦ q.attributes
  ]

-- The size of a flexible partition, with `others` flexible requests still to come.
unfoldable pub flexible_size : ℕ → ℕ → Flexible → ℕ
flexible_size others left f =
    if others == 0
    then elim f.most [ none ↦ max left f.least | some m ↦ max (min left m) f.least ]
    else (let share = left / (others + 1) in
        let size = add64 f.least share in elim f.most [ none ↦ size | some m ↦ min size m ])

module _ {A : Type 0} where
  -- A failure of the flexible pass undoes all changes.
  abbrev pub clean_up : PlanError → Planner A → Outcome PlanError (Planner A) Unit
  clean_up e p = fail e (undo_all p)

  -- The match on the planner's answer in the flexible pass.
  abbrev pub or_clean_up :
      Outcome PlanError (Planner A) Unit
      → Exec PlanError (Planner A) Unit
      → Outcome PlanError (Planner A) Unit
  or_clean_up (done _ p) rest = rest p
  or_clean_up (fail e p) rest = clean_up e p
  or_clean_up panic rest = panic

  -- The pass over the flexible requests.
  unfoldable pub flexible_pass :
      List (PartitionRequest A) → List Flexible → ℕ → ℕ → Exec PlanError (Planner A) Unit
  unfolding flexible_size undo_all
  flexible_pass requests [] current left p = done tt p
  flexible_pass requests (f ∷ fs) current left p =
      if ltb left f.least
      then clean_up (region_out_of_bounds current (add64 current f.least)) p
      else (let n = flexible_size (length fs) left f in
          or_clean_up
            (plan_add_partition_with_attributes current (add64 current n)
              (attributes_at requests f.index) p)
            (flexible_pass requests fs (add64 current n) (sub64 left n)))

  -- `apply` once the target is known.
  unfoldable pub fill : List (PartitionRequest A) → Region A → Exec PlanError (Planner A) Unit
  fill requests region p =
      let current = region.start in
      let left = sub64 region.end region.start in
      let fixed = total_fixed 0 requests in
      let flexible = min_flexible 0 requests in
      if ltb left (add64 fixed flexible)
      then fail (region_out_of_bounds current (add64 (add64 current fixed) flexible)) p
      else continue (exact_pass requests current left p)
          (λ (c, l). flexible_pass requests (flexible_requests 0 requests) c l)

  unfoldable pub apply : Strategy A → Exec PlanError (Planner A) Unit
  unfolding target fill
  apply s p = continue (target s.allocation p) (fill s.requests)
