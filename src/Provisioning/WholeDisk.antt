-- ===== src/Provisioning/WholeDisk.antt =====
-- A strategy that finds a disk, makes a partition table on it and creates partitions of exact sizes,
-- on all matching devices: crates/provisioning/src/provisioner.rs, `create_plans_for_strategy`.
use mathlib.Core.List.{append-nil}
use disks_rs.Base.{
  ℕ, suc, ◌+◌, ◌<◌, ◌≡◌, refl, ap, ◌∙◌, String, List, [], ◌∷◌, All, length, u32_mod,
}
use disks_rs.Attributes.{PartitionAttributes}
use disks_rs.Types.{GptTypes}
use disks_rs.Strategy.Exact.{sum, IsWhole}
use disks_rs.Provisioning.Commands.{CreatePartition, CreatePartitionTable, FindDisk}
use disks_rs.Provisioning.Parser.{StrategyDefinition}
use disks_rs.Provisioning.Provisioner.{
  Pooled, Plan, plans, also, branches, matching_devices, walk, strategy_parents, Provisioner,
  create_plans_for_strategy,
}
use disks_rs.Provisioning.OneDevice.{whole_disk, wanted, HasRoom, IsServed, call-IsServed}

module _ {G U : Type 0} (t : GptTypes G) where
  -- One plan for each device, in their order.
  abbrev pub EachServed :
      StrategyDefinition
      → String
      → List (ℕ × CreatePartition)
      → List Pooled
      → List (Plan (PartitionAttributes G U))
      → Type 0
  EachServed s name cs [] [] = Unit
  EachServed s name cs [] (plan ∷ ps) = ⊥
  EachServed s name cs (d ∷ ds) [] = ⊥
  EachServed s name cs (d ∷ ds) (plan ∷ ps) =
      IsServed t s name cs d plan × EachServed s name cs ds ps

  branches-EachServed :
      (fuel depth : ℕ) (p : Provisioner) (title summary : String) (f : FindDisk)
      (table : CreatePartitionTable) (cs : List (ℕ × CreatePartition)) (ds : List Pooled)
      → All IsWhole (wanted {U = U} t f.name cs)
      → 1 + length (wanted {U = U} t f.name cs) < u32_mod
      → All (HasRoom (sum (wanted {U = U} t f.name cs))) ds
      → (ps : List (Plan (PartitionAttributes G U))) × (branches
            (create_plans_for_strategy t
              (suc fuel)
              (suc depth)
              p
              (whole_disk title summary f table cs))
            f.name
            ds
            []
          ≡ plans ps)
        × EachServed (whole_disk title summary f table cs) f.name cs ds ps
  branches-EachServed fuel depth p title summary f table cs [] w ids rooms = ([], refl, tt)
  branches-EachServed fuel depth p title summary f table cs (d ∷ ds) w ids (room, rooms) =
      let (plan, made, served) =
        call-IsServed t fuel depth p title summary f table cs d w ids room in
      let (ps, more, each) =
        branches-EachServed fuel depth p title summary f table cs ds w ids rooms in
      let rest =
        branches
          (create_plans_for_strategy t (suc fuel) (suc depth) p
            (whole_disk title summary f table cs))
          f.name ds [] in
      (plan ∷ ps, ap (λ x. also x rest) made ∙ ap (also (plans (plan ∷ []))) more, (served, each))

  -- Take a strategy without a parent that finds a disk, makes a table on it and creates partitions
  -- of exact sizes: positive multiples of the alignment, fewer than 2 ^ 32 - 1. If they fit on every
  -- matching device between the alignments at its ends, and the devices are smaller than 2 ^ 64,
  -- then two nested calls make one plan for each matching device, in their order, which assigns the
  -- name to the device, lays the partitions out one behind the other from the first alignment, and
  -- takes mounts and filesystems from that layout.
  pub create_plans-EachServed :
      (fuel depth : ℕ) (p : Provisioner) (title summary : String) (f : FindDisk)
      (table : CreatePartitionTable) (cs : List (ℕ × CreatePartition))
      → All IsWhole (wanted {U = U} t f.name cs)
      → 1 + length (wanted {U = U} t f.name cs) < u32_mod
      → All
          (HasRoom (sum (wanted {U = U} t f.name cs)))
          (matching_devices {A = PartitionAttributes G U} f.constraints p.devices [])
      → (ps : List (Plan (PartitionAttributes G U))) × (create_plans_for_strategy t
            (suc (suc fuel))
            (suc depth)
            p
            (whole_disk title summary f table cs)
            []
          ≡ plans ps)
        × EachServed
            (whole_disk title summary f table cs)
            f.name
            cs
            (matching_devices {A = PartitionAttributes G U} f.constraints p.devices [])
            ps
  unfolding create_plans_for_strategy strategy_parents walk
  create_plans-EachServed fuel depth p title summary f table cs w ids rooms =
      let s = whole_disk title summary f table cs in
      let (ps, made, each) =
        branches-EachServed fuel depth p title summary f table cs
          (matching_devices {A = PartitionAttributes G U} f.constraints p.devices []) w ids rooms in
      (
        ps,
        ap (λ l. walk t (create_plans_for_strategy t (suc fuel) (suc depth) p s) p.devices s l [])
              (append-nil s.commands)
            ∙ made,
        each,
      )
