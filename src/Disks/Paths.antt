-- ===== src/Disks/Paths.antt =====
-- The paths of a device's partitions: crates/disks/src/lib.rs, `partition_path`.
use text.Mathlib.TextLemmas.{append_cancel_left}
use disks_rs.Base.{
  ℕ, ◌≡◌, refl, sym, ap, ◌∙◌, String, Bool, true, false, Option, none, some, some-inj, [], ◌∷◌,
}
use disks_rs.Base.Text.{concat, decimal}
use disks_rs.Base.Numerals.{decimal_inj}
use disks_rs.Disks.Defs.{
  Component, root_dir, cur_dir, parent_dir, normal, FilePath, dev_path, bare, with_p,
  with_file_name, BlockDevice, disk, loopback, scsi, nvme, mmc, virtual, mock, MockDisk,
  partition_path,
}

file_name : FilePath → Option String
file_name [] = none
file_name (normal n ∷ []) = some n
file_name (_ ∷ []) = none
file_name (_ ∷ d ∷ path) = file_name (d ∷ path)

file_name-cons : (c d : Component) (p : FilePath) → file_name (c ∷ d ∷ p) ≡ file_name (d ∷ p)
unfolding file_name
file_name-cons root_dir d p = refl
file_name-cons cur_dir d p = refl
file_name-cons parent_dir d p = refl
file_name-cons (normal n) d p = refl

with_file_name-nonempty :
    (d : Component) (p : FilePath) (n : String)
    → (e : Component) × (q : FilePath) × (with_file_name (d ∷ p) n ≡ e ∷ q)
with_file_name-nonempty root_dir [] n = (_, _, refl)
with_file_name-nonempty cur_dir [] n = (_, _, refl)
with_file_name-nonempty parent_dir [] n = (_, _, refl)
with_file_name-nonempty (normal m) [] n = (_, _, refl)
with_file_name-nonempty d (e ∷ p) n = (_, _, refl)

file_name-with_file_name : (p : FilePath) (n : String) → file_name (with_file_name p n) ≡ some n
unfolding file_name
file_name-with_file_name [] n = refl
file_name-with_file_name (root_dir ∷ []) n = refl
file_name-with_file_name (cur_dir ∷ []) n = refl
file_name-with_file_name (parent_dir ∷ []) n = refl
file_name-with_file_name (normal m ∷ []) n = refl
file_name-with_file_name (c ∷ d ∷ p) n =
    let (e, q, k) = with_file_name-nonempty d p n in
    ap (λ l. file_name (c ∷ l)) k
    ∙ file_name-cons c e q
    ∙ ap file_name (sym k)
    ∙ file_name-with_file_name (d ∷ p) n

with_file_name_inj : (p : FilePath) (m n : String) → with_file_name p m ≡ with_file_name p n → m ≡ n
with_file_name_inj p m n h =
    some-inj (sym (file_name-with_file_name p m) ∙ ap file_name h ∙ file_name-with_file_name p n)

dev_path_inj : (m n : String) → dev_path m ≡ dev_path n → m ≡ n
unfolding file_name
dev_path_inj m n h = some-inj (ap file_name h)

bare_inj : (n : String) (i j : ℕ) → bare n i ≡ bare n j → i ≡ j
bare_inj n i j h = decimal_inj i j (append_cancel_left n (decimal i) (decimal j) h)

with_p_inj : (n : String) (i j : ℕ) → with_p n i ≡ with_p n j → i ≡ j
with_p_inj n i j h = decimal_inj i j (
    append_cancel_left "p" (decimal i) (decimal j)
      (append_cancel_left n (concat "p" (decimal i)) (concat "p" (decimal j)) h))

module _ (i j : ℕ) where
  mock_inj :
      (m : MockDisk) (prefix : Bool)
      → m.parts_prefix ≡ prefix
      → partition_path (disk (mock m)) i ≡ partition_path (disk (mock m)) j
      → i ≡ j
  unfolding partition_path
  mock_inj m true e h = with_p_inj m.basic_disk.name i j (dev_path_inj _ _ (simp (e) at h))
  mock_inj m false e h = bare_inj m.basic_disk.name i j (dev_path_inj _ _ (simp (e) at h))

  -- Two partitions of one device have one path only if they have one index.
  pub partition_path_inj : (b : BlockDevice) → partition_path b i ≡ partition_path b j → i ≡ j
  unfolding partition_path
  partition_path_inj (disk (scsi d)) h = bare_inj d.name i j (with_file_name_inj d.device _ _ h)
  partition_path_inj (disk (virtual d)) h = bare_inj d.name i j (with_file_name_inj d.device _ _ h)
  partition_path_inj (disk (mmc d)) h = with_p_inj d.name i j (with_file_name_inj d.device _ _ h)
  partition_path_inj (disk (nvme d)) h = with_p_inj d.name i j (with_file_name_inj d.device _ _ h)
  partition_path_inj (disk (mock m)) h = mock_inj m m.parts_prefix refl h
  partition_path_inj (loopback l) h = with_p_inj l.name i j (with_file_name_inj l.device _ _ h)
