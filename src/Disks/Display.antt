-- ===== src/Disks/Display.antt =====
-- Disks and partitions for people: crates/disks/src/disk.rs and partition.rs, `Display`.
use disks_rs.Base.{ℕ, ◌*◌, ◌≡◌, refl, String, Option, none, some, [], ◌∷◌, mul64}
use disks_rs.Base.Text.{concat, concat_all}
use disks_rs.Base.Float.{to_f64, two_places}
use disks_rs.Disks.Defs.{Partition, BasicDisk, Disk, deref, MockDisk, new_mock, dev_path}
use disks_rs.Disks.Defs

abbrev pub gib : ℕ
gib = 1024 * 1024 * 1024

-- What `if let` writes for an optional text.
abbrev pub after : String → Option String → String
after prefix none = ""
after prefix (some s) = concat prefix s

-- `Display for BasicDisk`; the quotient of a float by a power of two is exact.
unfoldable pub basic_disk_to_string : BasicDisk → String
unfolding two_places to_f64
basic_disk_to_string d = concat_all (
    d.name
    ∷ " ("
    ∷ two_places (to_f64 (mul64 d.sectors 512)) gib
    ∷ " GiB)"
    ∷ after " - " d.vendor
    ∷ after " " d.model
    ∷ [])

-- `Display for Disk`
unfoldable pub disk_to_string : Disk → String
unfolding basic_disk_to_string
disk_to_string d = basic_disk_to_string (deref d)

-- `Display for Partition`
unfoldable pub partition_to_string : Partition → String
unfolding two_places to_f64
partition_to_string p =
    concat_all (p.name ∷ " " ∷ two_places (to_f64 p.size * 512) gib ∷ " GiB" ∷ [])

displayed :
    disk_to_string (Disk.mock (new_mock 1610612736)) ≡ "mock0 (1.50 GiB) - Mock Vendor Mock Device"
unfolding disk_to_string Defs.new_mock Defs.new_with_name mul64 disks_rs.Base.Text.decimal
displayed = refl
