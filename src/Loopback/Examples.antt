-- ===== src/Loopback/Examples.antt =====
-- The theorems on loop devices at a concrete system.
use disks_rs.Base.{
  ℕ, ◌+◌, refl, arith, true, some, none, List, [], ◌∷◌, ◌==◌, length, if◌then◌else◌,
}
use disks_rs.Loopback.{System, LoopDevice, create, attach, detach, create_sparse}
use disks_rs.Loopback.Descriptors.{without, IsTracked, Leaves, create-Leaves, open_files-kept}

-- A system whose state is the list of its open files: a new one gets the next number, up to 9.
abbrev system : System (List ℕ)
system = record {
  open_file = λ mode path w.
      if length w == 10 then (none, w) else (some (length w + 3), (length w + 3) ∷ w);
  ioctl = λ fd c w. (some 7, w);
  set_len = λ fd size w. (true, w);
  close = without;
}

system-IsTracked : IsTracked system (λ w. w)
system-IsTracked = record {
  open_some = λ mode path w fd h. ground arith;
  open_none = λ mode path w h. ground arith;
  ioctl_kept = λ fd c w. refl;
  set_len_kept = λ fd size w. refl;
  closed = λ fd w. refl;
}

create-Leaves_example : Leaves system (λ w. w) (λ d. d.fd ∷ []) [] (create system [])
create-Leaves_example = create-Leaves system (λ w. w) [] system-IsTracked

abbrev loop7 : LoopDevice
loop7 = record { fd = 4; path = "/dev/loop7" }

open_files-kept_example :
    Leaves system (λ w. w) (λ _. 4 ∷ []) (4 ∷ []) (attach system loop7 "disk.img" (4 ∷ []))
    × Leaves system (λ w. w) (λ _. 4 ∷ []) (4 ∷ []) (detach system loop7 (4 ∷ []))
    × Leaves system (λ w. w) (λ _. 4 ∷ []) (4 ∷ []) (create_sparse system "disk.img" 4096 (4 ∷ []))
open_files-kept_example =
    open_files-kept system (λ w. w) loop7 "disk.img" 4096 (4 ∷ []) system-IsTracked
