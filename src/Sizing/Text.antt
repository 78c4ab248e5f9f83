-- ===== src/Sizing/Text.antt =====
-- Sizes and positions for people: crates/disks/src/sizing.rs, `format_size` and `format_position`.
use disks_rs.Base.{ℕ, ◌*◌, ◌/◌, ◌^◌, ◌-◌, ◌≡◌, refl, String, min, leb, ◌==◌, if◌then◌else◌, u64_mod}
use disks_rs.Base.Text.{concat, decimal}
use disks_rs.Base.Float.{to_f64, round53, one_place}

abbrev pub kb : ℕ
kb = 1024

abbrev pub mb : ℕ
mb = 1024 * kb

abbrev pub gb : ℕ
gb = 1024 * mb

abbrev pub tb : ℕ
tb = 1024 * gb

-- The text of a size that is a float already.
unfoldable pub size_text : ℕ → String
unfolding one_place
size_text size =
    if leb tb size
    then concat (one_place size tb) "TiB"
    else if leb gb size
    then concat (one_place size gb) "GiB"
    else if leb mb size
    then concat (one_place size mb) "MiB"
    else if leb kb size
    then concat (one_place size kb) "KiB"
    else concat (decimal size) "B"

unfoldable pub format_size : ℕ → String
unfolding to_f64 size_text
format_size size = size_text (to_f64 size)

-- The scale of the quotient of two floats, whose numerator has 53 bits at least.
abbrev pub scale : ℕ
scale = 2 ^ 128

-- `(pos / total * 100.0) as u64` on floats, for a total that is not 0.
unfoldable pub float_percent : ℕ → ℕ → ℕ
unfolding round53
float_percent pos total = min (round53 (round53 (pos * scale) total * 100) 1 / scale) (u64_mod - 1)

-- `(pos as f64 / total as f64 * 100.0) as u64`: the cast of an infinity gives the greatest number,
-- and that of NaN gives 0.
unfoldable pub percent : ℕ → ℕ → ℕ
unfolding to_f64 float_percent
percent pos total =
    if total == 0
    then if pos == 0 then 0 else u64_mod - 1
    else float_percent (to_f64 pos) (to_f64 total)

unfoldable pub format_position : ℕ → ℕ → String
unfolding percent format_size
format_position pos total =
    concat (decimal (percent pos total)) (concat "% (" (concat (format_size pos) ")"))

-- The examples of the documentation, a position that is shown with one percent less, and a size that
-- is shown as 1024 of a unit.
shown :
    (format_size 1500 ≡ "1.5KiB")
    × (format_size 1500000 ≡ "1.4MiB")
    × (format_position 500 1000 ≡ "50% (500B)")
    × (format_position 29 100 ≡ "28% (29B)")
    × (format_size (1048576 - 1) ≡ "1024.0KiB")
unfolding format_size format_position percent decimal
shown = (refl, refl, refl, refl, refl)
