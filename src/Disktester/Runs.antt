-- ===== src/Disktester/Runs.antt =====
-- Steps of the program that succeed: crates/disktester/src/main.rs, `apply_partitioning`.
use disks_rs.Base.{
  ℕ, ◌≡◌, refl, ap, ◌∙◌, Bool, true, false, Option, none, some, none≢some, List, [], ◌∷◌, Outcome,
  done, continue, String, keep_if, not,
}
use disks_rs.Disks
use disks_rs.Disks.{FilePath, BlockDevice, loopback}
use disks_rs.Types.{GptTypes, Constraints}
use disks_rs.Attributes.{PartitionAttributes}
use disks_rs.Formatter.{Command}
use disks_rs.Writer.Changes.{simulate, write, sync_gpt_partitions}
use disks_rs.Writer.Answers.{IsAnswering, remove-done, create-done}
use disks_rs.Provisioning.Commands.{CreatePartition}
use disks_rs.Provisioning.Parser.{StrategyDefinition}
use disks_rs.Provisioning.Provisioner.{
  Pooled, DevicePlan, Plan, fits, is_assigned, matching_devices,
}
use disks_rs.Provisioning.OneDevice.{IsServed}
use disks_rs.Provisioning.WholeDisk.{EachServed}
use disks_rs.Disktester.{Host, Output, TestError, boxed, write_each, run_each}

-- A command that cannot be run, or whose output is text.
abbrev pub IsPrinted : Option Output → Type 0
IsPrinted none = Unit
IsPrinted (some o) = (t : String) × (u : String) × (o.stdout ≡ some t) × (o.stderr ≡ some u)

keep_if-one : {A : Type 0} (p : A → Bool) (x : A) → p x ≡ true → keep_if p (x ∷ []) ≡ x ∷ []
keep_if-one p x h = rw (h, keep_if) refl

pub matching-one :
    (A : Type 0) (c : Option Constraints) (d : Pooled)
    → fits c d.block_device ≡ true
    → matching_devices {A = A} c (d ∷ []) [] ≡ d ∷ []
unfolding matching_devices
matching-one A c d h =
    ap (keep_if (λ x. not (is_assigned {A = A} x.address [])))
      (keep_if-one (λ x. fits c x.block_device) d h)

module _ {G U : Type 0} (t : GptTypes G) where
  pub EachServed-one :
      (s : StrategyDefinition) (name : String) (cs : List (ℕ × CreatePartition)) (d : Pooled)
      (ps : List (Plan (PartitionAttributes G U)))
      → EachServed t s name cs (d ∷ []) ps
      → (p : Plan (PartitionAttributes G U)) × (ps ≡ p ∷ []) × IsServed t s name cs d p
  EachServed-one s name cs d [] e = absurd e
  EachServed-one s name cs d (p ∷ []) e = (p, refl, e.0)
  EachServed-one s name cs d (p ∷ q ∷ ps) e = absurd e.1

module _ {W N E S T G U : Type 0} (h : Host W N E S T G U) where
  pub sync-done :
      (path : FilePath) (w : W)
      → IsAnswering (h.machine path)
      → (v : W) × (sync_gpt_partitions (h.machine path) w ≡ done tt v)
  unfolding sync_gpt_partitions
  sync-done path w r =
      let (w1, e1, _) = remove-done (h.machine path) r w in
      let (w2, e2, _) = create-done (h.machine path) r w1 in (w2, rw (e1, continue) e2)

  text-done :
      (stdout : Option String) (success : Bool) (stderr : Option String)
      (rest : Outcome (TestError S) W Unit) (t u : String)
      → stdout ≡ some t
      → stderr ≡ some u
      → elim stdout [
        | none ↦ Outcome.panic
        | some text ↦ elim success [
          | true ↦ rest
          | false ↦ elim stderr [ none ↦ Outcome.panic | some text ↦ rest ]
        ]
      ]
        ≡ rest
  text-done none s x rest t u e f = absurd (none≢some e)
  text-done (some y) true x rest t u e f = refl
  text-done (some y) false none rest t u e f = absurd (none≢some f)
  text-done (some y) false (some x) rest t u e f = refl

  printed-done :
      (o : Option Output) (rest : Outcome (TestError S) W Unit)
      → IsPrinted o
      → elim o [
        | none ↦ rest
        | some out ↦ elim out.stdout [
          | none ↦ Outcome.panic
          | some stdout ↦ elim out.success [
            | true ↦ rest
            | false ↦ elim out.stderr [ none ↦ Outcome.panic | some stderr ↦ rest ]
          ]
        ]
      ]
        ≡ rest
  printed-done none rest p = refl
  printed-done (some out) rest (x, y, e, f) =
      text-done out.stdout out.success out.stderr rest x y e f

  pub run_each-done :
      (cs : List Command) (w : W)
      → ((c : Command) (v : W) → IsPrinted (h.output c v).0)
      → (v : W) × (run_each h cs w ≡ done tt v)
  unfolding run_each
  run_each-done [] w p = (w, refl)
  run_each-done (c ∷ cs) w p =
      let w1 = (h.output c w).1 in
      let (v, e) = run_each-done cs w1 p in
      (v, printed-done (h.output c w).0 (run_each h cs w1) (p c w) ∙ e)

  pub write_each-one :
      (name : String) (a : DevicePlan (PartitionAttributes G U)) (w v v' : W)
      → simulate (h.machine (Disks.device a.device.block_device)) a.device.block_device a.planner w
        ≡ done tt v
      → write (h.machine (Disks.device a.device.block_device)) a.device.block_device a.planner v
        ≡ done tt v'
      → write_each h ((name, a) ∷ []) w ≡ done tt v'
  unfolding write_each
  write_each-one name a w v v' e f = rw (e, boxed, continue) (rw (f, boxed, continue) refl)
