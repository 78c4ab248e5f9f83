-- ===== src/Planner.antt =====
-- The partition planner: crates/partitioning/src/planner.rs. A method on `&mut self` is an action on
-- the planner's state; `A` is the type of the attributes, which the planner only stores. Log calls,
-- which compute nothing that is kept, are left out.
pub mod Layout
pub mod Hazards
pub mod Undo
pub mod Numbers
pub mod History
pub mod Steps
pub mod Usable
pub mod Text
pub mod UnitTests
pub mod Adding
mod Examples
use disks_rs.Base.{
  ℕ, zero, suc, ◌*◌, Bool, true, false, not, ◌&&◌, ◌||◌, Option, none, some, List, [], ◌∷◌, ◌++◌,
  min, max, length, get_elem?, any, ltb, leb, ◌==◌, if◌then◌else◌, add32, sub64, Exec, done, fail,
  panic,
}
use disks_rs.Disks.{Partition, BlockDevice}
use disks_rs.Disks
use disks_rs.Sizing.{is_aligned, align_up, align_down}

pub data PlanError : Type 0 where
  region_overlap region_out_of_bounds : ℕ → ℕ → PlanError
  no_free_regions : PlanError

pub data Change (A : Type 0) : Type 0 where
  -- start, end, partition_id, attributes
  add_partition : ℕ → ℕ → ℕ → Option A → Change A
  -- original_index, partition_id
  delete_partition : ℕ → ℕ → Change A

pub record Region (A : Type 0) : Type 0 where
  pub start : ℕ
  pub end : ℕ
  pub partition_id : Option ℕ
  pub attributes : Option A

pub record Planner (A : Type 0) : Type 0 where
  pub usable_start : ℕ
  pub usable_end : ℕ
  pub changes : List (Change A)
  pub original_regions : List (Region A)
  pub original_partition_ids : List ℕ
  pub next_partition_id : ℕ
  pub wipe_disk : Bool

abbrev pub partition_alignment : ℕ
partition_alignment = 1024 * 1024

-- Regions.
module _ {A : Type 0} where
  -- `Region::new`
  abbrev pub new_region : ℕ → ℕ → Region A
  new_region start end = record { start = start; end = end; partition_id = none; attributes = none }

  unfoldable pub size : Region A → ℕ
  size r = sub64 r.end r.start

  abbrev pub overlaps_with : Region A → Region A → Bool
  overlaps_with r other = ltb r.start other.end && ltb other.start r.end

  -- `Vec::remove`, which panics out of range.
  abbrev pub remove? : List (Region A) → ℕ → Option (List (Region A))
  remove? [] i = none
  remove? (r ∷ rs) zero = some rs
  remove? (r ∷ rs) (suc i) = elim (remove? rs i) [ none ↦ none | some l ↦ some (r ∷ l) ]

  abbrev pub remove_all : List ℕ → List (Region A) → Option (List (Region A))
  remove_all [] l = some l
  remove_all (i ∷ is) l = elim (remove? l i) [ none ↦ none | some l' ↦ remove_all is l' ]

-- `sort_unstable_by(|a, b| b.cmp(a))`: equal indices cannot be told apart, so any sort will do.
abbrev pub insert_descending : ℕ → List ℕ → List ℕ
insert_descending i [] = i ∷ []
insert_descending i (j ∷ is) = if leb j i then i ∷ j ∷ is else j ∷ insert_descending i is

pub sort_descending : List ℕ → List ℕ → List ℕ
sort_descending sorted [] = sorted
sort_descending sorted (i ∷ is) = sort_descending (insert_descending i sorted) is

module _ {A : Type 0} where
  -- The two passes of `current_layout` over the changes.
  abbrev pub deleted_indices : List (Change A) → List ℕ
  deleted_indices [] = []
  deleted_indices (add_partition s e i a ∷ cs) = deleted_indices cs
  deleted_indices (delete_partition i n ∷ cs) = i ∷ deleted_indices cs

  abbrev pub added_regions : List (Change A) → List (Region A)
  added_regions [] = []
  added_regions (add_partition s e i a ∷ cs) =
      record { start = s; end = e; partition_id = some i; attributes = a } ∷ added_regions cs
  added_regions (delete_partition i n ∷ cs) = added_regions cs

  unfoldable pub layout_of : List (Region A) → List (Change A) → Option (List (Region A))
  unfolding sort_descending
  layout_of original changes =
      elim (remove_all (sort_descending [] (deleted_indices changes)) original) [
        | none ↦ none
        | some kept ↦ some (kept ++ added_regions changes)
      ]

  -- `current_layout`; `none` is a panic.
  abbrev pub current_layout : Planner A → Option (List (Region A))
  current_layout p = layout_of p.original_regions p.changes

  -- The loop of `Planner::new` over the device's partitions.
  abbrev pub regions_from : List Partition → List (Region A)
  regions_from [] = []
  regions_from (part ∷ parts) =
      record {
        start = part.start;
        end = part.end;
        partition_id = some part.number;
        attributes = none;
      }
      ∷ regions_from parts

abbrev pub numbers : List Partition → List ℕ
numbers [] = []
numbers (part ∷ parts) = part.number ∷ numbers parts

abbrev pub max_from : ℕ → List Partition → ℕ
max_from max_id [] = max_id
max_from max_id (part ∷ parts) = max_from (max max_id part.number) parts

module _ {A : Type 0} where
  -- `Planner::new`
  unfoldable pub new : BlockDevice → Planner A
  new device = record {
    usable_start = 0;
    usable_end = Disks.size device;
    changes = [];
    original_regions = regions_from (Disks.partitions device);
    original_partition_ids = numbers (Disks.partitions device);
    next_partition_id = add32 (max_from 0 (Disks.partitions device)) 1;
    wipe_disk = false;
  }

  unfoldable pub with_start_offset : ℕ → Planner A → Planner A
  with_start_offset offset p = record p { usable_start = offset }

  unfoldable pub with_end_offset : ℕ → Planner A → Planner A
  with_end_offset offset p = record p { usable_end = offset }

  abbrev pub usable_size : Planner A → ℕ
  usable_size p = sub64 p.usable_end p.usable_start

  abbrev pub offsets : Planner A → ℕ × ℕ
  offsets p = (p.usable_start, p.usable_end)

  abbrev pub allocate_partition_id : Planner A → ℕ × Planner A
  allocate_partition_id p =
      (p.next_partition_id, record p { next_partition_id = add32 p.next_partition_id 1 })

  abbrev pub get_original_partition_id : ℕ → Planner A → Option ℕ
  get_original_partition_id index p = get_elem? p.original_partition_ids index

  -- The tail of `plan_add_partition_with_attributes`: the overlap test, the id, the change.
  unfoldable pub place : ℕ → ℕ → Option A → Exec PlanError (Planner A) Unit
  place s e attributes p = elim (current_layout p) [
    | none ↦ panic
    | some current ↦
        if any (λ r. overlaps_with (new_region s e) r) current
        then fail (region_overlap s e) p
        else (let (id, p') = allocate_partition_id p in
            done tt (record p' { changes = p'.changes ++ add_partition s e id attributes ∷ [] }))
  ]

  abbrev pub aligned_start : ℕ → Planner A → ℕ
  aligned_start start p = max (align_up start partition_alignment) p.usable_start

  abbrev pub aligned_end : ℕ → Planner A → ℕ
  aligned_end end p = min (align_down end partition_alignment) p.usable_end

  unfoldable pub plan_add_partition_with_attributes :
      ℕ → ℕ → Option A → Exec PlanError (Planner A) Unit
  plan_add_partition_with_attributes start end attributes p =
      let s = aligned_start start p in
      let e = aligned_end end p in
      if is_aligned start partition_alignment && not (s == start)
      then fail (region_out_of_bounds s e) p
      else if is_aligned end partition_alignment && not (e == end)
      then fail (region_out_of_bounds s e) p
      else if ltb s p.usable_start || ltb p.usable_end e
      then fail (region_out_of_bounds s e) p
      else if leb e s
      then fail (region_out_of_bounds s e) p
      else place s e attributes p

  unfoldable pub plan_add_partition : ℕ → ℕ → Exec PlanError (Planner A) Unit
  unfolding plan_add_partition_with_attributes
  plan_add_partition start end = plan_add_partition_with_attributes start end none

  unfoldable pub plan_delete_partition : ℕ → Exec PlanError (Planner A) Unit
  plan_delete_partition index p =
      if leb (length p.original_regions) index
      then fail (region_out_of_bounds p.usable_start (usable_size p)) p
      else elim (get_original_partition_id index p) [
        | none ↦ fail (region_out_of_bounds p.usable_start (usable_size p)) p
        | some id ↦ done tt (record p { changes = p.changes ++ delete_partition index id ∷ [] })
      ]

  -- `VecDeque::pop_back`
  abbrev pub drop_last : List (Change A) → List (Change A)
  drop_last [] = []
  drop_last (c ∷ []) = []
  drop_last (c ∷ d ∷ cs) = c ∷ drop_last (d ∷ cs)

  abbrev pub has_changes : Planner A → Bool
  has_changes p = elim p.changes [ [] ↦ false | _ ∷ _ ↦ true ]

  unfoldable pub undo : Planner A → Planner A × Bool
  undo p = (record p { changes = drop_last p.changes }, has_changes p)

  unfoldable pub reset : Planner A → Planner A
  reset p = record p { changes = [] }

  unfoldable pub plan_initialize_disk : Planner A → Planner A
  plan_initialize_disk p = record p {
    changes = [];
    original_regions = [];
    original_partition_ids = [];
    next_partition_id = 1;
    wipe_disk = true;
  }
