-- ===== src/Sizing.antt =====
-- Alignment of byte positions: crates/disks/src/sizing.rs. A remainder by zero panics there and
-- `%` by zero is the identity here, so each theorem asks for a positive alignment; the program
-- calls these with PARTITION_ALIGNMENT alone.
pub mod Nearest
pub mod Text
pub mod Shown
mod Examples
use disks_rs.Base.{ℕ, ◌-◌, ◌%◌, ◌/◌, Bool, ltb, ◌==◌, if◌then◌else◌, add64}

unfoldable pub is_aligned : ℕ → ℕ → Bool
is_aligned value alignment = value % alignment == 0

unfoldable pub align_up : ℕ → ℕ → ℕ
align_up value alignment =
    let remainder = value % alignment in
    if remainder == 0
    then value
    else if ltb (alignment / 2) remainder
    then add64 value (alignment - remainder)
    else value - remainder

unfoldable pub align_down : ℕ → ℕ → ℕ
align_down value alignment =
    let remainder = value % alignment in
    if remainder == 0
    then value
    else if ltb remainder (alignment / 2)
    then value - remainder
    else add64 value (alignment - remainder)
