-- ===== src/Writer.antt =====
-- The disk writer: crates/partitioning/src/writer.rs. A store stands for the device file: its size,
-- its bytes and the position of its cursor.
pub mod Zeroing
mod Examples
pub mod TableExamples
mod ProgressExamples
pub mod Blkpg
pub mod Changes
pub mod Validation
pub mod Simulation
pub mod Table
pub mod Gpt
pub mod Kernel
pub mod Answers
pub mod Progress
pub mod Reached
pub mod Frame
pub mod Whole
pub mod Predicted
use disks_rs.Base.{
  ℕ, zero, suc, ◌+◌, ◌-◌, ◌*◌, ◌/◌, ◌%◌, Bool, true, false, ◌&&◌, min, leb, ltb, ◌==◌,
  if◌then◌else◌, Exec, done, fail, panic, continue,
}

pub record Store : Type 0 where
  pub size : ℕ
  pub byte : ℕ → ℕ
  pub position : ℕ

pub data IoError : Type 0 where
  storage_full os : IoError

abbrev pub sector_size : ℕ
sector_size = 512

-- `n` zeros from a position on.
abbrev pub zeroed : ℕ → ℕ → (ℕ → ℕ) → ℕ → ℕ
zeroed at n byte i = if leb at i && ltb i (at + n) then 0 else byte i

abbrev pub seek : ℕ → Exec IoError Store Unit
seek at s = done tt (record s { position = at })

-- `write_all` of `n` zeros. A device has a fixed size: what does not fit is an error, after what
-- fits was written.
abbrev pub write_zeros : ℕ → Exec IoError Store Unit
write_zeros n s =
    if leb (s.position + n) s.size
    then done tt (record s { byte = zeroed s.position n s.byte; position = s.position + n })
    else fail storage_full
        (record s { byte = zeroed s.position (s.size - s.position) s.byte; position = s.size })

abbrev pub flush : Exec IoError Store Unit
flush s = done tt s

-- The loop over the chunks.
unfoldable pub write_chunks : ℕ → Exec IoError Store Unit
write_chunks zero s = done tt s
write_chunks (suc n) s = continue (write_zeros 65536 s) (λ _. write_chunks n)

unfoldable pub zero_region : ℕ → ℕ → Exec IoError Store Unit
unfolding write_chunks
zero_region offset size s = continue (seek offset s) (λ _ s1.
    continue (write_chunks (size / 65536) s1) (λ _ s2.
      let remainder = size % 65536 in
      continue (if ltb 0 remainder then write_zeros remainder s2 else done tt s2) (λ _. flush)))

unfoldable pub zero_disk_headers : Exec IoError Store Unit
unfolding zero_region
zero_disk_headers s = zero_region 0 (2 * 1024 * 1024) s

unfoldable pub zero_partition_prefix : ℕ → ℕ → Exec IoError Store Unit
unfolding zero_region
zero_partition_prefix offset size s = zero_region offset (min size (2 * 1024 * 1024)) s
