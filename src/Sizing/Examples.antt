-- ===== src/Sizing/Examples.antt =====
-- The theorems on alignment at concrete values.
use disks_rs.Base.{ℕ, ◌-◌, ◌+◌, ◌/◌, ◌≤◌, ◌≡◌, true, arith}
use disks_rs.Sizing.{is_aligned, align_up}
use disks_rs.Sizing.Text.{format_size, percent}
use disks_rs.Sizing.Shown.{SizeUnit, IsShown, format_size-IsShown, percent-le}
use disks_rs.Sizing.Nearest.{align_up-nearest}

align_up-nearest_example :
    (is_aligned (align_up 1700 512) 512 ≡ true)
    × (align_up 1700 512 ≤ 1700 + 512 / 2)
    × (1700 ≤ align_up 1700 512 + 512 / 2)
align_up-nearest_example = align_up-nearest 1700 512 (omega arith) (omega arith)

format_size-IsShown_example :
    (u : SizeUnit) × (t : ℕ) × IsShown (1048576 - 1) (format_size (1048576 - 1)) u t
format_size-IsShown_example = format_size-IsShown (1048576 - 1) (omega arith) (omega arith)

percent-le_example : (percent 4096 4096 ≤ 100) × (◌≡◌ {A = ℕ} 4096 4096 → percent 4096 4096 ≡ 100)
percent-le_example = percent-le 4096 4096 (omega arith) (omega arith) (omega arith)
