-- ===== src/Disks/NotDevices.antt =====
-- The partitions of a device are not taken for devices: crates/disks/src/lib.rs,
-- `from_sysfs_path` and `partition_path`.
use Prim.Native.String.{String}
use disks_rs.Base.{ℕ, ◌≡◌, sym, ◌∙◌, Bool, true, false, Option, none, ok, err, arith, if◌then◌else◌}
use disks_rs.Base.Text.{concat, decimal}
use disks_rs.Base.Parse.{all_chars}
use disks_rs.Disks.Defs.{FilePath, dev_path, bare, with_p, BlockDevice, partition_path}
use disks_rs.Disks.Sysfs.{FileSystem}
use disks_rs.Disks.Discovery.{
  Classes, has_form, nvme_pattern, mmc_pattern, or_else, wrap, recognise, not_found,
  from_sysfs_path, scsi_from_sysfs_path, nvme_from_sysfs_path, mmc_from_sysfs_path,
  virt_from_sysfs_path, loop_from_sysfs_path,
}
use disks_rs.Disks.Recognised.{
  is_scsi, is_nvme, is_mmc, is_virtual, is_loop, from_sysfs_path-Recognised,
}
use disks_rs.Disks.Names.{
  IsDocumented, after, after-prefix, after-other, after-suffix, strip_prefix-append,
  decimal-not_alphabetic, p-lost, digits, digits-pass, digits_n_digits, digits_n_digits-pass,
  digit_or_n,
}

unless {ℓ} : {T : Type ℓ} (o : Option T) {t : Bool} → t ≡ false → (if t then o else none) ≡ none
unless o e = rw e

module _ (c : Classes) (doc : IsDocumented c) where
  -- No kind takes the name.
  abbrev Excluded : String → Type 0
  Excluded m =
      (has_form "sd" c.is_alphabetic m ≡ false)
      × (c.is_match nvme_pattern m ≡ false)
      × (c.is_match mmc_pattern m ≡ false)
      × (has_form "vd" c.is_alphabetic m ≡ false)
      × (has_form "loop" c.is_numeric m ≡ false)

  scsi-Excluded :
      (n : String) (i : ℕ) → has_form "sd" c.is_alphabetic n ≡ true → Excluded (bare n i)
  scsi-Excluded n i h =
      let m = bare n i in
      let (r, e, k) = after-prefix "sd" (all_chars c.is_alphabetic) n h in
      let e' = strip_prefix-append "sd" n (decimal i) r e in
      let alpha = all_chars c.is_alphabetic in
      (
        after-suffix "sd" alpha c.is_alphabetic n (decimal i) (λ r k. k) h
            (decimal-not_alphabetic c i doc),
        doc.nvme m ∙ after-other "sd" "nvme" m _ _ e' (omega arith),
        doc.mmc m ∙ after-other "sd" "mmcblk" m _ _ e' (omega arith),
        after-other "sd" "vd" m _ alpha e' (omega arith),
        after-other "sd" "loop" m _ (all_chars c.is_numeric) e' (omega arith),
      )

  virtual-Excluded :
      (n : String) (i : ℕ) → has_form "vd" c.is_alphabetic n ≡ true → Excluded (bare n i)
  virtual-Excluded n i h =
      let m = bare n i in
      let alpha = all_chars c.is_alphabetic in
      let (r, e, k) = after-prefix "vd" alpha n h in
      let e' = strip_prefix-append "vd" n (decimal i) r e in
      (
        after-other "vd" "sd" m _ alpha e' (omega arith),
        doc.nvme m ∙ after-other "vd" "nvme" m _ _ e' (omega arith),
        doc.mmc m ∙ after-other "vd" "mmcblk" m _ _ e' (omega arith),
        after-suffix "vd" alpha c.is_alphabetic n (decimal i) (λ r k. k) h
            (decimal-not_alphabetic c i doc),
        after-other "vd" "loop" m _ (all_chars c.is_numeric) e' (omega arith),
      )

  -- The same where "p" is in between.
  nvme-Excluded : (n : String) (i : ℕ) → c.is_match nvme_pattern n ≡ true → Excluded (with_p n i)
  nvme-Excluded n i h =
      let m = with_p n i in
      let f = digits_n_digits doc.digit in
      let alpha = all_chars c.is_alphabetic in
      let h' : after "nvme" f n ≡ true = sym (doc.nvme n) ∙ h in
      let (r, e, k) = after-prefix "nvme" f n h' in
      let e' = strip_prefix-append "nvme" n (concat "p" (decimal i)) r e in
      (
        after-other "nvme" "sd" m _ alpha e' (omega arith),
        doc.nvme m
            ∙ after-suffix "nvme" f (digit_or_n doc.digit) n (concat "p" (decimal i))
                (digits_n_digits-pass doc.digit) h'
                (p-lost (digit_or_n doc.digit) (decimal i)
                  (λ d is_p. ground (arith, doc.p_no_digit d is_p))),
        doc.mmc m ∙ after-other "nvme" "mmcblk" m _ _ e' (omega arith),
        after-other "nvme" "vd" m _ alpha e' (omega arith),
        after-other "nvme" "loop" m _ (all_chars c.is_numeric) e' (omega arith),
      )

  mmc-Excluded : (n : String) (i : ℕ) → c.is_match mmc_pattern n ≡ true → Excluded (with_p n i)
  mmc-Excluded n i h =
      let m = with_p n i in
      let f = digits doc.digit in
      let alpha = all_chars c.is_alphabetic in
      let h' : after "mmcblk" f n ≡ true = sym (doc.mmc n) ∙ h in
      let (r, e, k) = after-prefix "mmcblk" f n h' in
      let e' = strip_prefix-append "mmcblk" n (concat "p" (decimal i)) r e in
      (
        after-other "mmcblk" "sd" m _ alpha e' (omega arith),
        doc.nvme m ∙ after-other "mmcblk" "nvme" m _ _ e' (omega arith),
        doc.mmc m
            ∙ after-suffix "mmcblk" f doc.digit n (concat "p" (decimal i)) (digits-pass doc.digit)
                h' (p-lost doc.digit (decimal i) doc.p_no_digit),
        after-other "mmcblk" "vd" m _ alpha e' (omega arith),
        after-other "mmcblk" "loop" m _ (all_chars c.is_numeric) e' (omega arith),
      )

  loop-Excluded :
      (n : String) (i : ℕ) → has_form "loop" c.is_numeric n ≡ true → Excluded (with_p n i)
  loop-Excluded n i h =
      let m = with_p n i in
      let f = all_chars c.is_numeric in
      let alpha = all_chars c.is_alphabetic in
      let (r, e, k) = after-prefix "loop" f n h in
      let e' = strip_prefix-append "loop" n (concat "p" (decimal i)) r e in
      (
        after-other "loop" "sd" m _ alpha e' (omega arith),
        doc.nvme m ∙ after-other "loop" "nvme" m _ _ e' (omega arith),
        doc.mmc m ∙ after-other "loop" "mmcblk" m _ _ e' (omega arith),
        after-other "loop" "vd" m _ alpha e' (omega arith),
        after-suffix "loop" f c.is_numeric n (concat "p" (decimal i)) (λ r k. k) h
            (p-lost c.is_numeric (decimal i) doc.p_not_numeric),
      )

  module _ (fs : FileSystem) (root : FilePath) (m : String) where
    scsi-none : has_form "sd" c.is_alphabetic m ≡ false → scsi_from_sysfs_path c fs root m ≡ none
    unfolding scsi_from_sysfs_path
    scsi-none e = unless _ e

    nvme-none : c.is_match nvme_pattern m ≡ false → nvme_from_sysfs_path c fs root m ≡ none
    unfolding nvme_from_sysfs_path
    nvme-none e = unless _ e

    mmc-none : c.is_match mmc_pattern m ≡ false → mmc_from_sysfs_path c fs root m ≡ none
    unfolding mmc_from_sysfs_path
    mmc-none e = unless _ e

    virt-none : has_form "vd" c.is_alphabetic m ≡ false → virt_from_sysfs_path c fs root m ≡ none
    unfolding virt_from_sysfs_path
    virt-none e = unless _ e

    loop-none : has_form "loop" c.is_numeric m ≡ false → loop_from_sysfs_path c fs root m ≡ none
    unfolding loop_from_sysfs_path
    loop-none e = unless _ e

    not_found-Excluded :
        Excluded m → from_sysfs_path c fs root m ≡ err (not_found "Device not found")
    unfolding from_sysfs_path recognise
    not_found-Excluded (s, n, b, v, l) =
        rw (scsi-none s, wrap, or_else, from_sysfs_path, recognise)
          (rw (nvme-none n, wrap, or_else, from_sysfs_path, recognise)
            (rw (mmc-none b, wrap, or_else, from_sysfs_path, recognise)
              (rw (virt-none v, wrap, or_else, from_sysfs_path, recognise)
                (rw (loop-none l, wrap)))))

  module _ (fs : FileSystem) (root : FilePath) where
    -- Take what is documented of the classes of characters and of the regex crate. If a device is
    -- found under a name, then the path of its partition of any index is /dev with a name under
    -- which, whatever the file system holds, no device is found.
    pub partition_path-not_found :
        (n : String) (b : BlockDevice) (i : ℕ)
        → from_sysfs_path c fs root n ≡ ok b
        → (m : String) × (partition_path b i ≡ dev_path m)
          × ((other : FileSystem)
              → from_sysfs_path c other root m ≡ err (not_found "Device not found"))
    unfolding partition_path
    partition_path-not_found n b i h = elim (from_sysfs_path-Recognised c fs root n b h) [
      | is_scsi d t (e, k) w ↦ (
        bare n i,
        rw (w, partition_path, e, k),
        λ other. not_found-Excluded other root (bare n i) (scsi-Excluded n i t),
      )
      | is_virtual d t (e, k) w ↦ (
        bare n i,
        rw (w, partition_path, e, k),
        λ other. not_found-Excluded other root (bare n i) (virtual-Excluded n i t),
      )
      | is_nvme d t (e, k) w ↦ (
        with_p n i,
        rw (w, partition_path, e, k),
        λ other. not_found-Excluded other root (with_p n i) (nvme-Excluded n i t),
      )
      | is_mmc d t (e, k) w ↦ (
        with_p n i,
        rw (w, partition_path, e, k),
        λ other. not_found-Excluded other root (with_p n i) (mmc-Excluded n i t),
      )
      | is_loop l t e k w ↦ (
        with_p n i,
        rw (w, partition_path, e, k),
        λ other. not_found-Excluded other root (with_p n i) (loop-Excluded n i t),
      )
    ]
