-- ===== src/Disktester.antt =====
-- The program disktester: crates/disktester/src/main.rs. It provisions a loop device on a sparse
-- file by the strategies of a file. What it prints is left out. `W` is the state of the host.

pub mod Kept
pub mod Files
pub mod Runs
pub mod Works
mod Sample
mod Examples
use disks_rs.Base.{
  ℕ, zero, suc, ◌*◌, String, Bool, true, false, Option, none, some, List, [], ◌∷◌, Result, ok, err,
  Outcome, Exec, done, fail, panic, continue, if◌then◌else◌,
}
use disks_rs.Base.Text.{concat}
use disks_rs.Disks
use disks_rs.Disks.{Component, root_dir, cur_dir, parent_dir, normal, FilePath, loopback}
use disks_rs.Disks.Sysfs.{FileSystem, path_of}
use disks_rs.Disks.Discovery.{Classes, from_device_path}
use disks_rs.Types.{Error, GptTypes, Filesystem}
use disks_rs.Attributes.{PartitionAttributes}
use disks_rs.Kdl.{Kdl}
use disks_rs.Formatter
use disks_rs.Formatter.{Command, format, force}
use disks_rs.Loopback.{System, LoopDevice, IoError, create, attach, detach, create_sparse, closing}
use disks_rs.Writer.Changes.{WriteError, Machine, simulate, write, sync_gpt_partitions}
use disks_rs.Provisioning.Parser.{StrategyDefinition, new_for_path}
use disks_rs.Provisioning.Provisioner
use disks_rs.Provisioning.Provisioner.{
  Provisioner, Pooled, Assignments, Plan, Plans, plans, panicked, diverged, add_strategy,
  push_device, plan,
}

-- `std::process::Output`: a text is `none` if the bytes are no UTF-8.
pub record Output : Type 0 where
  pub success : Bool
  pub stdout : Option String
  pub stderr : Option String

-- The host: the operating system, the crates kdl, gpt, regex and uuid, whose identifiers are `U`, and
-- commands, whose output is `none`
-- if they cannot be run.
pub record Host (W N E S T G U : Type 0) : Type 0 where
  pub loops : System W
  pub read_to_string : String → W → Result String String
  pub kdl : Kdl N E S
  pub parse_v2 : String → Result (Error S) (List N)
  pub files : W → FileSystem
  pub classes : Classes
  -- by the path of the block device
  pub machine : FilePath → Machine W T G
  pub types : GptTypes G
  pub output : Command → W → Option Output × W

-- The errors that are boxed.
pub data TestError (S : Type 0) : Type 0 where
  parse_error : List (Error S) → TestError S
  message : String → TestError S
  write_error blkpg_error : WriteError → TestError S

abbrev pub component_text : Component → String
component_text root_dir = "/"
component_text cur_dir = "."
component_text parent_dir = ".."
component_text (normal n) = n

-- A path as an argument of a command.
abbrev pub path_text : FilePath → String
path_text [] = ""
path_text (c ∷ []) = component_text c
path_text (root_dir ∷ c ∷ rest) = concat "/" (path_text (c ∷ rest))
path_text (b ∷ c ∷ rest) = concat (component_text b) (concat "/" (path_text (c ∷ rest)))

-- The commands that make the filesystems.
abbrev pub formatters : List (FilePath × Filesystem) → List Command
formatters [] = []
formatters ((device, fs) ∷ rest) =
    format (force (Formatter.new fs)) (path_text device) ∷ formatters rest

abbrev pub add_all : List StrategyDefinition → Provisioner → Provisioner
add_all [] p = p
add_all (s ∷ ss) p = add_all ss (add_strategy s p)

-- The `?` of an error that is boxed.
abbrev pub boxed : {E F W A : Type 0} → (E → F) → Outcome E W A → Outcome F W A
boxed f (done a w) = done a w
boxed f (fail e w) = fail (f e) w
boxed f panic = panic

abbrev pub strategies_path : String
strategies_path = "crates/provisioning/tests/use_whole_disk.kdl"

abbrev pub image_path : String
image_path = "lesparse.img"

module _ {W N E S T G U : Type 0} (h : Host W N E S T G U) where
  unfoldable pub load_provisioning : String → W → Result (List (Error S)) (List StrategyDefinition)
  unfolding new_for_path
  load_provisioning path w = new_for_path h.kdl (h.read_to_string path w) h.parse_v2

  -- The loop over the device assignments.
  unfoldable pub write_each : Assignments (PartitionAttributes G U) → Exec (TestError S) W Unit
  unfolding simulate write
  write_each [] w = done tt w
  write_each ((name, a) ∷ more) w =
      let device = a.device.block_device in
      let m = h.machine (Disks.device device) in
      continue (boxed write_error (simulate m device a.planner w))
        (λ _ w1. continue (boxed write_error (write m device a.planner w1)) (λ _. write_each more))

  -- The loop over the formatters: `from_utf8(..).expect(..)` panics.
  unfoldable pub run_each : List Command → Exec (TestError S) W Unit
  run_each [] w = done tt w
  run_each (c ∷ cs) w =
      let (o, w1) = h.output c w in
      let rest = run_each cs w1 in
      elim o [
        | none ↦ rest
        | some out ↦ elim out.stdout [
          | none ↦ panic
          | some stdout ↦ elim out.success [
            | true ↦ rest
            | false ↦ elim out.stderr [ none ↦ panic | some stderr ↦ rest ]
          ]
        ]
      ]

  -- What follows the choice of the plan.
  unfoldable pub apply_plan : FilePath → Plan (PartitionAttributes G U) → Exec (TestError S) W Unit
  unfolding write_each run_each sync_gpt_partitions
  apply_plan whence p w = continue (write_each p.device_assignments w) (λ _ w1.
      continue (boxed blkpg_error (sync_gpt_partitions (h.machine whence) w1))
        (λ _. run_each (formatters p.filesystems)))

  -- The first plan; `none` is that the fuel for the search ran out.
  abbrev pub first_plan :
      FilePath → Plans (PartitionAttributes G U) → W → Option (Outcome (TestError S) W Unit)
  first_plan whence (plans []) w = some (fail (message "No plans") w)
  first_plan whence (plans (p ∷ ps)) w = some (apply_plan whence p w)
  first_plan whence panicked w = some panic
  first_plan whence diverged w = none

  -- The provisioner with the strategies and the device.
  abbrev pub provisioner : List StrategyDefinition → Disks.LoopDevice → Provisioner
  provisioner strategies device =
      push_device (record { address = 0; block_device = loopback device })
        (add_all strategies Provisioner.new)

  -- `apply_partitioning`, on fuel for the search for devices and for the chains of parents.
  unfoldable pub apply_partitioning : ℕ → ℕ → FilePath → W → Option (Outcome (TestError S) W Unit)
  unfolding load_provisioning apply_plan plan add_strategy push_device from_device_path
  apply_partitioning fuel depth whence w = elim (load_provisioning strategies_path w) [
    | err es ↦ some (fail (parse_error es) w)
    | ok strategies ↦ elim (from_device_path h.classes (h.files w) whence) [
      | none ↦ some (fail (message "Not a loop device") w)
      | some device ↦
          first_plan whence (plan {U = U} h.types fuel depth (provisioner strategies device)) w
    ]
  ]

  -- Detaching, whether partitioning succeeded or failed.
  abbrev pub then_detach : LoopDevice → Outcome (TestError S) W Unit → Outcome IoError W Unit
  then_detach l (done _ w) = detach h.loops l w
  then_detach l (fail e w) = detach h.loops l w
  then_detach l panic = panic

  abbrev pub then_close : LoopDevice → Outcome (TestError S) W Unit → Outcome IoError W Unit
  then_close l o = closing h.loops l.fd (then_detach l o)

  abbrev pub partitioned :
      LoopDevice → Option (Outcome (TestError S) W Unit) → Option (Outcome IoError W Unit)
  partitioned l none = none
  partitioned l (some o) = some (then_close l o)

  -- From a device that is open.
  unfoldable pub with_device : ℕ → ℕ → LoopDevice → W → Option (Outcome IoError W Unit)
  unfolding attach detach apply_partitioning
  with_device fuel depth l w = elim (attach h.loops l image_path w) [
    | done _ w1 ↦ partitioned l (apply_partitioning fuel depth (path_of l.path) w1)
    | fail e w1 ↦ some (closing h.loops l.fd (fail e w1))
    | panic ↦ some panic
  ]

  unfoldable pub main : ℕ → ℕ → W → Option (Outcome IoError W Unit)
  unfolding create_sparse create with_device
  main fuel depth w = elim (create_sparse h.loops image_path (32 * 1024 * 1024 * 1024) w) [
    | fail e w1 ↦ some (fail e w1)
    | panic ↦ some panic
    | done _ w1 ↦ elim (create h.loops w1) [
      | fail e w2 ↦ some (fail e w2)
      | panic ↦ some panic
      | done l w2 ↦ with_device fuel depth l w2
    ]
  ]
