-- ===== src/Disktester/Kept.antt =====
-- What the steps of the program leave alone: crates/disktester/src/main.rs, `apply_partitioning`.
use disks_rs.Base.{
  ℕ, ◌≡◌, ◌∙◌, Bool, true, false, Option, none, some, List, [], ◌∷◌, Result, ok, err, Outcome, done,
  fail, panic, String,
}
use disks_rs.Disks
use disks_rs.Disks.{FilePath}
use disks_rs.Disks.Discovery.{from_device_path}
use disks_rs.Attributes.{PartitionAttributes}
use disks_rs.Types.{Error}
use disks_rs.Formatter.{Command}
use disks_rs.Loopback.Descriptors.{IsTracked}
use disks_rs.Writer.Changes.{simulate, write, sync_gpt_partitions}
use disks_rs.Writer.Frame.{
  Holds, Holds-continue, IsScoped, simulate-Holds, write-Holds, sync_gpt_partitions-Holds,
}
use disks_rs.Provisioning.Parser.{StrategyDefinition}
use disks_rs.Provisioning.Provisioner.{Assignments, Plan, Plans, plans, panicked, diverged, plan}
use disks_rs.Disktester.{
  Host, Output, TestError, parse_error, message, write_error, blkpg_error, boxed, formatters,
  write_each, run_each, apply_plan, first_plan, provisioner, strategies_path, load_provisioning,
  apply_partitioning,
}

module _ {W : Type 0} (P : W → Type 0) where
  -- A call that may run out of fuel.
  abbrev pub MayHold : {E A : Type 0} → Option (Outcome E W A) → Type 0
  MayHold none = Unit
  MayHold (some o) = Holds P o

  boxed-Holds : {E F A : Type 0} (f : E → F) (o : Outcome E W A) → Holds P o → Holds P (boxed f o)
  boxed-Holds f (done a w) h = h
  boxed-Holds f (fail e w) h = h
  boxed-Holds f panic h = h

module _ {W N E S T G U : Type 0} (h : Host W N E S T G U) (opened : W → List ℕ) where
  -- Opening and closing files is tracked, by the calls for loop devices and by those for the
  -- writer: a file that is opened is the last one, and closing it leaves the others. No other call on
  -- an opened device and no command leaves files open.
  pub record IsTidy : Type 0 where
    pub tracked : IsTracked h.loops opened
    pub machine_scoped : (path : FilePath) → IsScoped (h.machine path) (λ l w. opened w ≡ l)
    pub output_kept : (c : Command) (w : W) → opened (h.output c w).1 ≡ opened w

  module _ (i : IsTidy) (l : List ℕ) where
    write_each-Holds :
        (xs : Assignments (PartitionAttributes G U)) (w : W)
        → opened w ≡ l
        → Holds (λ v. opened v ≡ l) (write_each h xs w)
    unfolding write_each
    write_each-Holds [] w e = e
    write_each-Holds ((name, a) ∷ more) w e =
        let device = a.device.block_device in
        let m = h.machine (Disks.device device) in
        let P : W → Type 0 = λ v. opened v ≡ l in
        let F : List ℕ → W → Type 0 = λ x v. opened v ≡ x in
        let k = i.machine_scoped (Disks.device device) in
        Holds-continue P (boxed write_error (simulate m device a.planner w)) _
          (boxed-Holds P write_error (simulate m device a.planner w)
            (simulate-Holds m F k device a.planner l w e))
          (λ _ v q.
            Holds-continue P (boxed write_error (write m device a.planner v)) _
              (boxed-Holds P write_error (write m device a.planner v)
                (write-Holds m F k device a.planner l v q))
              (λ _ u r. write_each-Holds more u r))

    text-Holds :
        (stdout : Option String) (success : Bool) (stderr : Option String)
        (rest : Outcome (TestError S) W Unit)
        → Holds (λ u. opened u ≡ l) rest
        → Holds
            (λ u. opened u ≡ l)
            (elim stdout [
              | none ↦ panic
              | some text ↦ elim success [
                | true ↦ rest
                | false ↦ elim stderr [ none ↦ panic | some text ↦ rest ]
              ]
            ])
    text-Holds none s x rest k = tt
    text-Holds (some y) true x rest k = k
    text-Holds (some y) false none rest k = tt
    text-Holds (some y) false (some x) rest k = k

    output-Holds :
        (o : Option Output) (rest : Outcome (TestError S) W Unit)
        → Holds (λ u. opened u ≡ l) rest
        → Holds
            (λ u. opened u ≡ l)
            (elim o [
              | none ↦ rest
              | some out ↦ elim out.stdout [
                | none ↦ panic
                | some stdout ↦ elim out.success [
                  | true ↦ rest
                  | false ↦ elim out.stderr [ none ↦ panic | some stderr ↦ rest ]
                ]
              ]
            ])
    output-Holds none rest k = k
    output-Holds (some out) rest k = text-Holds out.stdout out.success out.stderr rest k

    run_each-Holds :
        (cs : List Command) (w : W) → opened w ≡ l → Holds (λ v. opened v ≡ l) (run_each h cs w)
    unfolding run_each
    run_each-Holds [] w e = e
    run_each-Holds (c ∷ cs) w e =
        let w1 = (h.output c w).1 in
        output-Holds (h.output c w).0 (run_each h cs w1)
          (run_each-Holds cs w1 (i.output_kept c w ∙ e))

    apply_plan-Holds :
        (whence : FilePath) (p : Plan (PartitionAttributes G U)) (w : W)
        → opened w ≡ l
        → Holds (λ v. opened v ≡ l) (apply_plan h whence p w)
    unfolding apply_plan
    apply_plan-Holds whence p w e =
        let P : W → Type 0 = λ v. opened v ≡ l in
        let m = h.machine whence in
        Holds-continue P (write_each h p.device_assignments w) _
          (write_each-Holds p.device_assignments w e)
          (λ _ v q.
            Holds-continue P (boxed blkpg_error (sync_gpt_partitions m v)) _
              (boxed-Holds P blkpg_error (sync_gpt_partitions m v)
                (sync_gpt_partitions-Holds m (λ x y. opened y ≡ x) (i.machine_scoped whence) l v q))
              (λ _ u r. run_each-Holds (formatters p.filesystems) u r))

    first_plan-MayHold :
        (whence : FilePath) (ps : Plans (PartitionAttributes G U)) (w : W)
        → opened w ≡ l
        → MayHold (λ v. opened v ≡ l) (first_plan h whence ps w)
    first_plan-MayHold whence (plans []) w e = e
    first_plan-MayHold whence (plans (p ∷ ps)) w e = apply_plan-Holds whence p w e
    first_plan-MayHold whence panicked w e = tt
    first_plan-MayHold whence diverged w e = tt

    -- What is found: the strategies and the device.
    found-MayHold :
        (r : Result (List (Error S)) (List StrategyDefinition)) (o : Option Disks.LoopDevice)
        (fuel depth : ℕ) (whence : FilePath) (w : W)
        → opened w ≡ l
        → MayHold
            (λ v. opened v ≡ l)
            {E = TestError S}
            {A = Unit}
            (elim r [
              | err es ↦ some (fail (parse_error es) w)
              | ok strategies ↦ elim o [
                | none ↦ some (fail (message "Not a loop device") w)
                | some device ↦
                    first_plan h whence
                      (plan {U = U} h.types fuel depth (provisioner h strategies device))
                      w
              ]
            ])
    found-MayHold (err es) o fuel depth whence w e = e
    found-MayHold (ok ss) none fuel depth whence w e = e
    found-MayHold (ok ss) (some d) fuel depth whence w e =
        first_plan-MayHold whence (plan h.types fuel depth (provisioner h ss d)) w e

    pub apply_partitioning-MayHold :
        (fuel depth : ℕ) (whence : FilePath) (w : W)
        → opened w ≡ l
        → MayHold (λ v. opened v ≡ l) (apply_partitioning h fuel depth whence w)
    unfolding apply_partitioning
    apply_partitioning-MayHold fuel depth whence w e =
        found-MayHold (load_provisioning h strategies_path w)
          (from_device_path h.classes (h.files w) whence) fuel depth whence w e
