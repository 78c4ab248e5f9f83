-- ===== src/Loopback.antt =====
-- Loop devices and sparse files: crates/partitioning/src/loopback.rs and sparsefile.rs. The
-- operating system is a parameter, on a state of its own; a file that goes out of scope is closed.
pub mod Descriptors
mod Examples
use disks_rs.Base.{
  ℕ, String, Bool, true, false, Option, none, some, List, [], replicate, Outcome, Exec, done, fail,
  panic, continue,
}
use disks_rs.Base.Text.{concat, decimal}

-- The options of the two ways that files are opened.
pub data OpenMode : Type 0 where
  -- `read(true).write(true)`
  read_write : OpenMode
  -- `write(true).create(true).truncate(true)`
  write_new : OpenMode

-- The requests of the loop driver, with their arguments.
pub data LoopCall : Type 0 where
  loop_ctl_get_free loop_clr_fd : LoopCall
  loop_set_fd : ℕ → LoopCall
  -- The bytes of the `loop_info64`.
  loop_set_status64 : List ℕ → LoopCall

pub record System (W : Type 0) : Type 0 where
  -- `none` is an error; otherwise the file's descriptor.
  pub open_file : OpenMode → String → W → Option ℕ × W
  -- `none` is a negative result.
  pub ioctl : ℕ → LoopCall → W → Option ℕ × W
  -- `File::set_len`, and whether it succeeds.
  pub set_len : ℕ → ℕ → W → Bool × W
  pub close : ℕ → W → W

-- `io::Error`
pub data IoError : Type 0 where
  os_error : IoError

pub record LoopDevice : Type 0 where
  pub fd : ℕ
  pub path : String

-- `mem::zeroed` of a `loop_info64`, which has 232 bytes.
abbrev pub empty_status : List ℕ
empty_status = replicate 232 0

module _ {W : Type 0} (s : System W) where
  -- The `?` of an opened file.
  abbrev pub opening : {A : Type 0} → OpenMode → String → (ℕ → Exec IoError W A) → Exec IoError W A
  opening mode path rest w =
      let (o, w') = s.open_file mode path w in
      elim o [ none ↦ fail os_error w' | some fd ↦ rest fd w' ]

  -- The test of a result below 0.
  abbrev pub calling : {A : Type 0} → ℕ → LoopCall → (ℕ → Exec IoError W A) → Exec IoError W A
  calling fd c rest w =
      let (o, w') = s.ioctl fd c w in elim o [ none ↦ fail os_error w' | some n ↦ rest n w' ]

  -- A file that is closed when the scope is left.
  abbrev pub closing : {A : Type 0} → ℕ → Outcome IoError W A → Outcome IoError W A
  closing fd (done a w) = done a (s.close fd w)
  closing fd (fail e w) = fail e (s.close fd w)
  closing fd panic = panic

  -- Opening the device of a number, and asking the control device for a free number.
  abbrev pub open_device : ℕ → Exec IoError W LoopDevice
  open_device devno =
      let path = concat "/dev/loop" (decimal devno) in
      opening read_write path (λ fd w. done (record { fd = fd; path = path }) w)

  abbrev pub with_control : ℕ → Exec IoError W LoopDevice
  with_control ctrl w = closing ctrl (calling ctrl loop_ctl_get_free open_device w)

  -- `LoopDevice::create`
  unfoldable pub create : Exec IoError W LoopDevice
  create = opening read_write "/dev/loop-control" with_control

  abbrev pub set_status : LoopDevice → ℕ → Exec IoError W Unit
  set_status d n = calling d.fd (loop_set_status64 empty_status) (λ _ w. done tt w)

  abbrev pub with_backing : LoopDevice → ℕ → Exec IoError W Unit
  with_backing d f w = closing f (calling d.fd (loop_set_fd f) (set_status d) w)

  -- `LoopDevice::attach`
  unfoldable pub attach : LoopDevice → String → Exec IoError W Unit
  attach d backing_file = opening read_write backing_file (with_backing d)

  -- `LoopDevice::detach`
  unfoldable pub detach : LoopDevice → Exec IoError W Unit
  detach d = calling d.fd loop_clr_fd (λ _ w. done tt w)

  abbrev pub set_size : ℕ → ℕ → Exec IoError W Unit
  set_size size file w =
      let (set, w') = s.set_len file size w in
      elim set [ true ↦ done tt w' | false ↦ fail os_error w' ]

  abbrev pub with_new : ℕ → ℕ → Exec IoError W Unit
  with_new size file w = closing file (set_size size file w)

  -- `sparsefile::create`
  unfoldable pub create_sparse : String → ℕ → Exec IoError W Unit
  create_sparse path size = opening write_new path (with_new size)
