-- ===== src/Provisioning/OneDevice.antt =====
-- One device under a strategy that finds a disk, makes a table and creates partitions of exact sizes:
-- crates/provisioning/src/provisioner.rs, `create_plans_for_strategy`, over the allocation
-- strategies of crates/partitioning.
use mathlib.Core.List.{append-nil, append_assoc}
use text.Mathlib.TextPositions.{eq_refl}
use disks_rs.Base.{
  ℕ, suc, ◌+◌, ◌-◌, ◌≤◌, ◌<◌, ◌≡◌, refl, sym, ap, ◌∙◌, arith, String, true, Option, none, some,
  List, [], ◌∷◌, ◌++◌, All, length, any, sub64, sub64-eq, u64_mod, u32_mod, done,
}
use disks_rs.Sizing.{is_aligned}
use disks_rs.Disks
use disks_rs.Disks.{BlockDevice}
use disks_rs.Attributes.{PartitionAttributes}
use disks_rs.Types.{GptTypes, Constraints}
use disks_rs.Planner
use disks_rs.Planner.{
  Planner, Region, partition_alignment, with_start_offset, with_end_offset, current_layout,
}
use disks_rs.Strategy
use disks_rs.Strategy.{
  Strategy, PartitionRequest, initialize_whole_disk, largest_free, add_request, apply,
}
use disks_rs.Strategy.Exact.{exacts, sum, consecutive, additions, IsWhole, apply-exact}
use disks_rs.Provisioning.Commands.{
  Command, create_partition, create_partition_table, find_disk, CreatePartition,
  CreatePartitionTable, FindDisk, attributes,
}
use disks_rs.Provisioning.Parser.{StrategyDefinition}
use disks_rs.Provisioning.Provisioner.{
  Pooled, DevicePlan, Assignments, Plan, Plans, plans, assign, update, contains_key, mounts_of,
  filesystems_of, left, apply_all, final_plan, request_of, walk, strategy_parents, Provisioner,
  create_plans_for_strategy,
}

-- A partition of an exact size on a named disk; its other options are arbitrary.
abbrev pub on : String → ℕ → CreatePartition → CreatePartition
on name n c = record c { disk = name; constraints = Constraints.exact n }

abbrev pub creations : String → List (ℕ × CreatePartition) → List Command
creations name [] = []
creations name ((n, c) ∷ cs) = create_partition (on name n c) ∷ creations name cs

-- The whole strategy: find a disk, make a table on it, create the partitions.
abbrev pub whole_disk :
    String
    → String
    → FindDisk
    → CreatePartitionTable
    → List (ℕ × CreatePartition)
    → StrategyDefinition
whole_disk title summary f table cs = record {
  name = title;
  summary = summary;
  inherits = none;
  commands =
      find_disk f ∷ create_partition_table (record table { disk = f.name }) ∷ creations f.name cs;
}

module _ {A : Type 0} where
  abbrev with_requests : DevicePlan A → List (PartitionRequest A) → DevicePlan A
  with_requests dp l = record dp { strategy = record dp.strategy { requests = l } }

  update-one :
      (name : String) (f : Strategy A → Strategy A) (dp : DevicePlan A)
      → update name f ((name, dp) ∷ []) ≡ (name, record dp { strategy = f dp.strategy }) ∷ []
  update-one name f dp = rw (eq_refl name, update)

  contains_key-one :
      (name : String) (dp : DevicePlan A) → contains_key name ((name, dp) ∷ []) ≡ true
  contains_key-one name dp = simp (eq_refl name, contains_key, any)

module _ {G U : Type 0} (t : GptTypes G) where
  -- The sizes and attributes that the partitions shall have.
  abbrev pub wanted :
      String → List (ℕ × CreatePartition) → List (ℕ × Option (PartitionAttributes G U))
  wanted name [] = []
  wanted name ((n, c) ∷ cs) = (n, some (attributes t (on name n c))) ∷ wanted name cs

  walk-creations :
      (call : Assignments (PartitionAttributes G U) → Plans (PartitionAttributes G U))
      (devices : List Pooled) (s : StrategyDefinition) (name : String)
      (cs : List (ℕ × CreatePartition)) (dp : DevicePlan (PartitionAttributes G U))
      (l : List (PartitionRequest (PartitionAttributes G U)))
      → walk t call devices s (creations name cs) ((name, with_requests dp l) ∷ [])
        ≡ final_plan s ((name, with_requests dp (l ++ exacts (wanted name cs))) ∷ [])
  unfolding walk add_request
  walk-creations call devices s name [] dp l =
      ap (λ k. final_plan s ((name, with_requests dp k) ∷ [])) (sym (append-nil l))
  walk-creations call devices s name ((n, c) ∷ cs) dp l =
      let q = request_of t (on name n c) in
      ap (walk t call devices s (creations name cs))
        (update-one name (add_request q) (with_requests dp l))
      ∙ walk-creations call devices s name cs dp (l ++ q ∷ [])
      ∙ ap (λ k. final_plan s ((name, with_requests dp k) ∷ []))
          (append_assoc l (q ∷ []) (exacts (wanted name cs)))

  apply_all-one :
      (name : String) (dp : DevicePlan (PartitionAttributes G U))
      (q : Planner (PartitionAttributes G U)) (layout : List (Region (PartitionAttributes G U)))
      → apply dp.strategy dp.planner ≡ done tt q
      → current_layout q ≡ some layout
      → apply_all ((name, dp) ∷ [])
        ≡ some (
          (name, record dp { planner = q }) ∷ [],
          mounts_of dp.device.block_device layout,
          filesystems_of dp.device.block_device layout,
        )
  unfolding apply_all
  apply_all-one name dp q layout h k = simp (h, k, apply_all, left)

-- The device's plan before its requests: the planner leaves an alignment free at both ends.
abbrev fresh : {A : Type 0} → Pooled → DevicePlan A
fresh d = record {
  device = d;
  planner =
      with_end_offset (sub64 (Disks.size d.block_device) partition_alignment)
        (with_start_offset partition_alignment (Planner.new d.block_device));
  strategy = record { allocation = initialize_whole_disk; requests = [] };
}

-- A plan that gives a device the name and the layout of partitions one behind the other.
pub record IsServed {G U : Type 0} (t : GptTypes G) (s : StrategyDefinition) (name : String)
    (cs : List (ℕ × CreatePartition)) (d : Pooled) (plan : Plan (PartitionAttributes G U))
    : Type 0 where
  pub device_plan : DevicePlan (PartitionAttributes G U)
  pub same_strategy : plan.strategy ≡ s
  pub assigned : plan.device_assignments ≡ (name, device_plan) ∷ []
  pub same_device : device_plan.device ≡ d
  pub layout :
      current_layout device_plan.planner
      ≡ some (consecutive partition_alignment 1 (wanted t name cs))
  pub changes : device_plan.planner.changes ≡ additions partition_alignment 1 (wanted t name cs)
  pub wiped : device_plan.planner.wipe_disk ≡ true
  pub mounts :
      plan.role_mounts
      ≡ mounts_of d.block_device (consecutive partition_alignment 1 (wanted {U = U} t name cs))
  pub filesystems :
      plan.filesystems
      ≡ filesystems_of d.block_device (consecutive partition_alignment 1 (wanted {U = U} t name cs))

-- The partitions fit between the alignments at both ends of the device.
abbrev pub HasRoom : ℕ → Pooled → Type 0
HasRoom n d =
    (partition_alignment + n + partition_alignment ≤ Disks.size d.block_device)
    × (Disks.size d.block_device < u64_mod)

module _ {G U : Type 0} (t : GptTypes G) where
  final_plan-IsServed :
      (s : StrategyDefinition) (name : String) (cs : List (ℕ × CreatePartition)) (d : Pooled)
      → All IsWhole (wanted {U = U} t name cs)
      → 1 + length (wanted {U = U} t name cs) < u32_mod
      → HasRoom (sum (wanted {U = U} t name cs)) d
      → (plan : Plan (PartitionAttributes G U)) × (final_plan s
            ((name, with_requests (fresh d) (exacts (wanted t name cs))) ∷ [])
          ≡ plans (plan ∷ []))
        × IsServed t s name cs d plan
  unfolding final_plan with_end_offset with_start_offset is_aligned
  final_plan-IsServed s name cs d w ids (room, bounded) =
      let dp = with_requests (fresh d) (exacts (wanted {U = U} t name cs)) in
      let end : sub64 (Disks.size d.block_device) partition_alignment
          ≡ Disks.size d.block_device - partition_alignment =
        sub64-eq (Disks.size d.block_device) partition_alignment (omega arith) bounded in
      let (q, run, laid, changes, wiped) =
        apply-exact (wanted t name cs) dp.planner w refl (omega arith) (omega arith) ids in
      let layout = consecutive partition_alignment 1 (wanted {U = U} t name cs) in
      (
        record {
          strategy = s;
          device_assignments = (name, record dp { planner = q }) ∷ [];
          role_mounts = mounts_of d.block_device layout;
          filesystems = filesystems_of d.block_device layout;
        },
        simp (apply_all-one t name dp q layout run laid, final_plan),
        record {
          device_plan = record dp { planner = q };
          same_strategy = refl;
          assigned = refl;
          same_device = refl;
          layout = laid;
          changes = changes;
          wiped = wiped;
          mounts = refl;
          filesystems = refl;
        },
      )

  walk-found :
      (call : Assignments (PartitionAttributes G U) → Plans (PartitionAttributes G U))
      (devices : List Pooled) (s : StrategyDefinition) (f : FindDisk) (cs : List Command)
      (xs : Assignments (PartitionAttributes G U))
      → contains_key f.name xs ≡ true
      → walk t call devices s (find_disk f ∷ cs) xs ≡ walk t call devices s cs xs
  unfolding walk
  walk-found call devices s f cs xs h = simp (h, walk) refl

  -- The call for one device, which its name is already given to.
  pub call-IsServed :
      (fuel depth : ℕ) (p : Provisioner) (title summary : String) (f : FindDisk)
      (table : CreatePartitionTable) (cs : List (ℕ × CreatePartition)) (d : Pooled)
      → All IsWhole (wanted {U = U} t f.name cs)
      → 1 + length (wanted {U = U} t f.name cs) < u32_mod
      → HasRoom (sum (wanted {U = U} t f.name cs)) d
      → (plan : Plan (PartitionAttributes G U)) × (create_plans_for_strategy t
            (suc fuel)
            (suc depth)
            p
            (whole_disk title summary f table cs)
            (assign f.name d [])
          ≡ plans (plan ∷ []))
        × IsServed t (whole_disk title summary f table cs) f.name cs d plan
  unfolding create_plans_for_strategy strategy_parents walk assign Strategy.new
  call-IsServed fuel depth p title summary f table cs d w ids room =
      let s = whole_disk title summary f table cs in
      let call = create_plans_for_strategy t fuel (suc depth) p s in
      let dp : DevicePlan (PartitionAttributes G U) = fresh d in
      let before = record dp { strategy = Strategy.new largest_free } in
      let (plan, made, served) = final_plan-IsServed s f.name cs d w ids room in
      (
        plan,
        ap (λ l. walk t call p.devices s l (assign f.name d [])) (append-nil s.commands)
            ∙ walk-found call p.devices s f
                (create_partition_table (record table { disk = f.name }) ∷ creations f.name cs)
                (assign f.name d []) (contains_key-one f.name before)
            ∙ (ap (walk t call p.devices s (creations f.name cs))
                (update-one f.name (λ _. Strategy.new initialize_whole_disk) before))
            ∙ walk-creations t call p.devices s f.name cs dp []
            ∙ made,
        served,
      )
