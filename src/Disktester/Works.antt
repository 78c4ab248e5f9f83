-- ===== src/Disktester/Works.antt =====
-- The whole way from a strategy's text to the formatted device: crates/disktester/src/main.rs,
-- `apply_partitioning`, over the provisioner, the planner, the strategies and the writer.
use disks_rs.Base.{
  ℕ, suc, ◌+◌, ◌*◌, ◌≤◌, ◌<◌, ◌≡◌, sym, ap, ◌∙◌, arith, subst, true, Option, some, List, [], ◌∷◌,
  All, length, ok, Outcome, done, continue, u32_mod, u64_mod, String,
}
use disks_rs.Disks
use disks_rs.Disks.{FilePath, BlockDevice, loopback}
use disks_rs.Disks.Discovery.{from_device_path}
use disks_rs.Attributes.{PartitionAttributes}
use disks_rs.Formatter.{Command}
use disks_rs.Planner.{Planner, Region, partition_alignment}
use disks_rs.Strategy.Exact.{sum, consecutive, IsWhole}
use disks_rs.Writer.Changes.{sync_gpt_partitions, simulate}
use disks_rs.Writer.Answers.{device_size, IsAnswering}
use disks_rs.Writer.Gpt.{IsGpt}
use disks_rs.Writer.Whole.{IsWholePlan, IsWritten, whole-IsWritten}
use disks_rs.Provisioning.Commands.{CreatePartition, CreatePartitionTable, FindDisk}
use disks_rs.Provisioning.Provisioner
use disks_rs.Provisioning.Provisioner.{
  Pooled, DevicePlan, Assignments, Plan, Plans, plans, also, fits, is_assigned, matching_devices,
  filesystems_of, add_strategy, push_device, plan, plan_each, create_plans_for_strategy,
  Provisioner,
}
use disks_rs.Provisioning.OneDevice.{whole_disk, wanted, HasRoom, IsServed}
use disks_rs.Provisioning.WholeDisk.{EachServed, create_plans-EachServed}
use disks_rs.Disktester.{
  Host, TestError, boxed, formatters, write_each, run_each, apply_plan, first_plan, provisioner,
  strategies_path, load_provisioning, apply_partitioning,
}
use disks_rs.Disktester.Runs.{
  IsPrinted, matching-one, EachServed-one, sync-done, run_each-done, write_each-one,
}

module _ {W N E S T G U : Type 0} (h : Host W N E S T G U) (look : T → ℕ → Option (ℕ × ℕ))
    (blocks : ℕ) (title summary : String) (f : FindDisk) (table : CreatePartitionTable)
    (cs : List (ℕ × CreatePartition)) (device : Disks.LoopDevice) where
  -- The layout that the strategy asks for, and the filesystems on it.
  abbrev pub layout : List (Region (PartitionAttributes G U))
  layout = consecutive partition_alignment 1 (wanted h.types f.name cs)

  abbrev pub made : List Command
  made = formatters (filesystems_of (loopback device) layout)

  plan-one :
      (fuel depth : ℕ)
      → All IsWhole (wanted {U = U} h.types f.name cs)
      → 1 + length (wanted {U = U} h.types f.name cs) < u32_mod
      → HasRoom
          (sum (wanted {U = U} h.types f.name cs))
          (record { address = 0; block_device = loopback device })
      → fits f.constraints (loopback device) ≡ true
      → (p : Plan (PartitionAttributes G U)) × (plan h.types
            (suc (suc fuel))
            (suc depth)
            (provisioner h (whole_disk title summary f table cs ∷ []) device)
          ≡ plans (p ∷ []))
        × IsServed h.types
            (whole_disk title summary f table cs)
            f.name
            cs
            (record { address = 0; block_device = loopback device })
            p
  unfolding plan add_strategy push_device Provisioner.new
  plan-one fuel depth w ids room fit =
      let d : Pooled = record { address = 0; block_device = loopback device } in
      let s = whole_disk title summary f table cs in
      let pool = provisioner h (s ∷ []) device in
      let matching : matching_devices {A = PartitionAttributes G U} f.constraints (d ∷ []) []
          ≡ d ∷ [] =
        matching-one (PartitionAttributes G U) f.constraints d fit in
      let (ps, run, each) =
        create_plans-EachServed h.types fuel depth pool title summary f table cs w ids (
          subst (All (HasRoom (sum (wanted {U = U} h.types f.name cs)))) (sym matching)
            (room, tt)) in
      let (p, e, served) =
        EachServed-one h.types s f.name cs d ps
          (subst (λ ds. EachServed h.types s f.name cs ds ps) matching each) in
      (p, ap (λ x. also x (plans [])) (run ∙ ap plans e), served)

  -- What the whole run comes to: the simulation succeeds, the write after it writes the table as it
  -- was planned, and the last thing that is done is to run the commands for the filesystems.
  pub record IsProvisioned (w : W) (o : Option (Outcome (TestError S) W Unit)) : Type 0 where
    pub planner : Planner (PartitionAttributes G U)
    pub is_planned : IsWholePlan (wanted {U = U} h.types f.name cs) planner
    pub simulated_state : W
    pub is_simulated :
        simulate (h.machine device.device) (loopback device) planner w ≡ done tt simulated_state
    pub written_state : W
    pub is_written :
        IsWritten
          (h.machine device.device)
          look
          (loopback device)
          (wanted {U = U} h.types f.name cs)
          simulated_state
          written_state
    pub synced : W
    pub is_synced : sync_gpt_partitions (h.machine device.device) written_state ≡ done tt synced
    pub last : W
    pub is_run : run_each h made synced ≡ done tt last
    pub is_done : o ≡ some (done tt last)

  -- The simulation and the write on the device.
  record IsPut (w v : W) : Type 0 where
    pub planner : Planner (PartitionAttributes G U)
    pub is_planned : IsWholePlan (wanted {U = U} h.types f.name cs) planner
    pub simulated_state : W
    pub is_simulated :
        simulate (h.machine device.device) (loopback device) planner w ≡ done tt simulated_state
    pub is_written :
        IsWritten
          (h.machine device.device)
          look
          (loopback device)
          (wanted {U = U} h.types f.name cs)
          simulated_state
          v

  write_each-IsPut :
      (p : Plan (PartitionAttributes G U)) (w : W)
      → IsAnswering (h.machine device.device)
      → IsGpt (h.machine device.device) look blocks
      → IsServed h.types
          (whole_disk title summary f table cs)
          f.name
          cs
          (record { address = 0; block_device = loopback device })
          p
      → All IsWhole (wanted {U = U} h.types f.name cs)
      → device_size (h.machine device.device) w ≡ blocks * 512
      → partition_alignment + sum (wanted {U = U} h.types f.name cs) + partition_alignment
        ≤ blocks * 512
      → blocks * 512 < u64_mod
      → length (wanted {U = U} h.types f.name cs) ≤ 128
      → (v : W) × (write_each h p.device_assignments w ≡ done tt v) × IsPut w v
  unfolding Disks.device
  write_each-IsPut p w r g served whole size room bounded few =
      let d : Pooled = record { address = 0; block_device = loopback device } in
      let dp = served.device_plan in
      let i : IsWholePlan (wanted {U = U} h.types f.name cs) dp.planner = record {
        changes = served.changes;
        wiped = served.wiped;
        layout = layout;
        is_layout = served.layout;
        whole = whole;
      } in
      let (v, v', simulated, put, written) =
        whole-IsWritten (h.machine device.device) look blocks r g (wanted {U = U} h.types f.name cs)
          (loopback device) dp.planner w i size room bounded few in
      let Runs : Pooled → Type 0 = λ x.
        write_each h
          ((f.name, record { device = x; planner = dp.planner; strategy = dp.strategy }) ∷ []) w
        ≡ done tt v' in
      let one : Runs d =
        write_each-one h f.name
          (record { device = d; planner = dp.planner; strategy = dp.strategy }) w v v' simulated
          put in
      (
        v',
        ap (λ xs. write_each h xs w) served.assigned ∙ subst Runs (sym served.same_device) one,
        record {
          planner = dp.planner;
          is_planned = i;
          simulated_state = v;
          is_simulated = simulated;
          is_written = written;
        },
      )

  apply_plan-IsProvisioned :
      (p : Plan (PartitionAttributes G U)) (w v : W)
      → IsAnswering (h.machine device.device)
      → IsServed h.types
          (whole_disk title summary f table cs)
          f.name
          cs
          (record { address = 0; block_device = loopback device })
          p
      → ((c : Command) (x : W) → IsPrinted (h.output c x).0)
      → write_each h p.device_assignments w ≡ done tt v
      → IsPut w v
      → IsProvisioned w (some (apply_plan h device.device p w))
  unfolding apply_plan
  apply_plan-IsProvisioned p w v r served printed put written =
      let (x, synced) = sync-done h device.device v r in
      let (y, run) = run_each-done h made x printed in
      record {
        planner = written.planner;
        is_planned = written.is_planned;
        simulated_state = written.simulated_state;
        is_simulated = written.is_simulated;
        written_state = v;
        is_written = written.is_written;
        synced = x;
        is_synced = synced;
        last = y;
        is_run = run;
        is_done = ap some (
            rw (put, continue)
              (rw (synced, boxed, continue)
                (ap (λ fs. run_each h (formatters fs) x) served.filesystems ∙ run)));
      }

  -- Take a host whose machine answers all calls, with tables as the gpt crate documents them, and
  -- whose commands print text. Let the file of strategies hold one: find a disk, make a table,
  -- create at most 128 partitions of exact sizes, positive multiples of the alignment. Let the loop
  -- device be found and match, have fewer than 2 ^ 64 bytes, and have room for the partitions
  -- between the alignments at its ends. Then, with two nested calls in the search, partitioning
  -- succeeds: from the first state on, a planner whose additions are the partitions is simulated; the
  -- write that follows makes a table and writes it with exactly the partitions, at the places that
  -- the strategy's layout gives them, then synchronises, zeroes, tells the kernel, flushes and
  -- closes, and at its end the partitions' prefixes are zero; then the kernel is synchronised, and
  -- last the commands that make the layout's filesystems are run.
  pub apply_partitioning-IsProvisioned :
      (fuel depth : ℕ) (w : W)
      → IsAnswering (h.machine device.device)
      → IsGpt (h.machine device.device) look blocks
      → ((c : Command) (x : W) → IsPrinted (h.output c x).0)
      → load_provisioning h strategies_path w ≡ ok (whole_disk title summary f table cs ∷ [])
      → from_device_path h.classes (h.files w) device.device ≡ some device
      → fits f.constraints (loopback device) ≡ true
      → Disks.size (loopback device) ≡ blocks * 512
      → device_size (h.machine device.device) w ≡ blocks * 512
      → blocks * 512 < u64_mod
      → All IsWhole (wanted {U = U} h.types f.name cs)
      → length (wanted {U = U} h.types f.name cs) ≤ 128
      → partition_alignment + sum (wanted {U = U} h.types f.name cs) + partition_alignment
        ≤ blocks * 512
      → IsProvisioned w (apply_partitioning h (suc (suc fuel)) (suc depth) device.device w)
  unfolding apply_partitioning
  apply_partitioning-IsProvisioned fuel depth w r g printed loaded found fit same size bounded whole
        few room =
      let (p, planned, served) =
        plan-one fuel depth whole (omega arith) (omega (arith, same), omega (arith, same)) fit in
      let (v, put, written) = write_each-IsPut p w r g served whole size room bounded few in
      let run : apply_partitioning h (suc (suc fuel)) (suc depth) device.device w
          ≡ some (apply_plan h device.device p w) =
        rw (loaded, apply_partitioning)
          (rw found (ap (λ ps. first_plan h device.device ps w) planned)) in
      subst (IsProvisioned w) (sym run)
        (apply_plan-IsProvisioned p w v r served printed put written)
