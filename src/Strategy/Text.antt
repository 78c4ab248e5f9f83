-- ===== src/Strategy/Text.antt =====
-- Strategies for people: crates/partitioning/src/strategy.rs, `describe`.
use disks_rs.Base.{ℕ, ◌+◌, ◌≡◌, refl, String, none, List, [], ◌∷◌, sub64}
use disks_rs.Base.Text.{concat, concat_all, decimal}
use disks_rs.Sizing.Text.{format_size, format_position}
use disks_rs.Planner.{size, new_region}
use disks_rs.Planner.Text.{describe_region}
use disks_rs.Strategy.{
  AllocationStrategy, initialize_whole_disk, largest_free, first_fit, specific_region,
  SizeRequirement, exact, at_least, range, remaining, PartitionRequest, Strategy,
}

abbrev pub describe_size : SizeRequirement → String
describe_size (exact n) = concat "exactly " (format_size n)
describe_size (at_least n) = concat "at least " (format_size n)
describe_size (range n m) = concat_all ("between " ∷ format_size n ∷ " and " ∷ format_size m ∷ [])
describe_size remaining = "remaining space"

module _ {A : Type 0} where
  abbrev pub describe_allocation : AllocationStrategy A → String
  describe_allocation initialize_whole_disk = "Initialize new partition layout on entire disk"
  describe_allocation largest_free = "Use largest free region"
  describe_allocation first_fit = "Use first available region"
  describe_allocation (specific_region r) =
      concat "Use specific region: " (describe_region (sub64 r.end r.start) r)

  -- The lines of the loop, which begin with the requests' numbers.
  abbrev pub request_lines : ℕ → List (PartitionRequest A) → String
  request_lines i [] = ""
  request_lines i (r ∷ rs) =
      concat (concat_all ("  " ∷ decimal i ∷ ": " ∷ describe_size r.size ∷ "\n" ∷ []))
        (request_lines (i + 1) rs)

  -- `Strategy::describe`
  unfoldable pub describe : Strategy A → String
  unfolding describe_region
  describe s = elim s.requests [
    | [] ↦ describe_allocation s.allocation
    | r ∷ rs ↦
        concat (describe_allocation s.allocation)
          (concat "\nRequested partitions:\n" (request_lines 1 (r ∷ rs)))
  ]

-- The bounds of a region of 1 GiB that starts at 10 GiB, as shares of the region's own size.
described :
    describe {A = ℕ} (record {
      allocation = specific_region (new_region 10737418240 11811160064);
      requests = record { size = remaining; attributes = none } ∷ [];
    })
    ≡ "Use specific region: 1.0GiB at 1000% (10.0GiB)..1100% (11.0GiB)\nRequested partitions:\n  1: remaining space\n"
unfolding describe size sub64 decimal format_size format_position
described = refl
