-- ===== src/Disks/Recognised.antt =====
-- What the recognition of a device by its name comes to (crates/disks/src/lib.rs,
-- `from_sysfs_path`), by the kind of the device.
use disks_rs.Base.{
  ◌≡◌, refl, sym, ◌⊎◌, inl, inr, some-inj, true, false, Bool, String, Option, none, some, none≢some,
  ok, arith, if◌then◌else◌,
}
use disks_rs.Disks.Defs.{
  FilePath, dev_path, BasicDisk, scsi, nvme, mmc, virtual, LoopDevice, BlockDevice, disk, loopback,
  name, device,
}
use disks_rs.Disks.Sysfs.{FileSystem, basic_from_sysfs_path}
use disks_rs.Disks.Discovery.{
  Classes, has_form, nvme_pattern, mmc_pattern, or_else, wrap, scsi_from_sysfs_path,
  nvme_from_sysfs_path, mmc_from_sysfs_path, virt_from_sysfs_path, loop_from_sysfs_path, recognise,
  from_sysfs_path,
}

-- A disk that carries its name.
abbrev pub IsNamed : String → BasicDisk → Type 0
IsNamed n d = (d.name ≡ n) × (d.device ≡ dev_path n)

-- The kinds of devices, each with the test that its name passes.
pub data Recognised (c : Classes) (n : String) (b : BlockDevice) : Type 0 where
  is_scsi :
      (d : BasicDisk)
      → has_form "sd" c.is_alphabetic n ≡ true
      → IsNamed n d
      → b ≡ disk (scsi d)
      → Recognised c n b
  is_nvme :
      (d : BasicDisk)
      → c.is_match nvme_pattern n ≡ true
      → IsNamed n d
      → b ≡ disk (nvme d)
      → Recognised c n b
  is_mmc :
      (d : BasicDisk)
      → c.is_match mmc_pattern n ≡ true
      → IsNamed n d
      → b ≡ disk (mmc d)
      → Recognised c n b
  is_virtual :
      (d : BasicDisk)
      → has_form "vd" c.is_alphabetic n ≡ true
      → IsNamed n d
      → b ≡ disk (virtual d)
      → Recognised c n b
  is_loop :
      (l : LoopDevice)
      → has_form "loop" c.is_numeric n ≡ true
      → l.name ≡ n
      → l.device ≡ dev_path n
      → b ≡ loopback l
      → Recognised c n b

module _ (fs : FileSystem) (root : FilePath) (n : String) where
  basic-IsNamed : (d : BasicDisk) → basic_from_sysfs_path fs root n ≡ some d → IsNamed n d
  unfolding basic_from_sysfs_path
  basic-IsNamed d h = ground arith

  -- A disk behind a test of its name.
  guarded :
      (t : Bool) (d : BasicDisk)
      → (if t then basic_from_sysfs_path fs root n else none) ≡ some d
      → (t ≡ true) × IsNamed n d
  guarded true d h = (refl, basic-IsNamed d h)
  guarded false d h = absurd (none≢some h)

  module _ (c : Classes) where
    loop-named :
        (l : LoopDevice)
        → loop_from_sysfs_path c fs root n ≡ some l
        → (has_form "loop" c.is_numeric n ≡ true) × (l.name ≡ n) × (l.device ≡ dev_path n)
    unfolding loop_from_sysfs_path
    loop-named l h = ground arith

-- The first kind that takes the device, or a later one.
or_else-cases {ℓ κ} :
    {T : Type ℓ} {U : Type κ} (f : T → U) (o : Option T) (r : Option U) (u : U)
    → or_else (wrap f o) r ≡ some u
    → ((t : T) × (o ≡ some t) × (u ≡ f t)) ⊎ (r ≡ some u)
or_else-cases f none r u h = inr h
or_else-cases f (some t) r u h = inl (t, refl, some-inj (sym h))

wrap-some {ℓ κ} :
    {T : Type ℓ} {U : Type κ} (f : T → U) (o : Option T) (u : U)
    → wrap f o ≡ some u
    → (t : T) × (o ≡ some t) × (u ≡ f t)
wrap-some f none u h = absurd (none≢some h)
wrap-some f (some t) u h = (t, refl, some-inj (sym h))

module _ (c : Classes) (fs : FileSystem) (root : FilePath) (n : String) where
  pub recognise-Recognised : (b : BlockDevice) → recognise c fs root n ≡ some b → Recognised c n b
  unfolding recognise scsi_from_sysfs_path nvme_from_sysfs_path mmc_from_sysfs_path
      virt_from_sysfs_path
  recognise-Recognised b h =
      elim (or_else-cases (λ d. disk (scsi d)) (scsi_from_sysfs_path c fs root n) _ b h) [
        | inl (d, e, k) ↦ let g = guarded fs root n _ d e in is_scsi d g.0 g.1 k
        | inr h ↦
            elim (or_else-cases (λ d. disk (nvme d)) (nvme_from_sysfs_path c fs root n) _ b h) [
              | inl (d, e, k) ↦ let g = guarded fs root n _ d e in is_nvme d g.0 g.1 k
              | inr h ↦
                  elim (or_else-cases (λ d. disk (mmc d)) (mmc_from_sysfs_path c fs root n) _ b h) [
                    | inl (d, e, k) ↦ let g = guarded fs root n _ d e in is_mmc d g.0 g.1 k
                    | inr h ↦
                        elim (or_else-cases (λ d. disk (virtual d))
                          (virt_from_sysfs_path c fs root n) _ b h) [
                            | inl (d, e, k) ↦
                                let g = guarded fs root n _ d e in is_virtual d g.0 g.1 k
                            | inr h ↦
                                let (l, e, k) =
                                  wrap-some loopback (loop_from_sysfs_path c fs root n) b h in
                                let g = loop-named fs root n c l e in is_loop l g.0 g.1 g.2 k
                          ]
                  ]
            ]
      ]

  pub from_sysfs_path-Recognised :
      (b : BlockDevice) → from_sysfs_path c fs root n ≡ ok b → Recognised c n b
  unfolding from_sysfs_path
  from_sysfs_path-Recognised b h = recognise-Recognised b (ground arith)

-- A device carries the name that it is found under, and stands in /dev under that name.
pub Recognised-name :
    (c : Classes) (n : String) (b : BlockDevice)
    → Recognised c n b
    → (name b ≡ n) × (device b ≡ dev_path n)
unfolding name device
Recognised-name c n b (is_scsi d t g e) = rw (e, name, device) g
Recognised-name c n b (is_nvme d t g e) = rw (e, name, device) g
Recognised-name c n b (is_mmc d t g e) = rw (e, name, device) g
Recognised-name c n b (is_virtual d t g e) = rw (e, name, device) g
Recognised-name c n b (is_loop l t g k e) = rw (e, name, device) (g, k)
