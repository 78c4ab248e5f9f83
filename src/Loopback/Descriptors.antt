-- ===== src/Loopback/Descriptors.antt =====
-- No file stays open behind the operations on loop devices and sparse files:
-- crates/partitioning/src/loopback.rs and sparsefile.rs.
use disks_rs.Base.{
  ℕ, ◌≡◌, refl, ap, ◌∙◌, arith, String, Bool-cases, Option-cases, inl, inr, none, some, List, [],
  ◌∷◌, ◌==◌, if◌then◌else◌, Outcome, Exec, done, fail, panic,
}
use disks_rs.Base.Text.{concat, decimal}
use disks_rs.Loopback.{
  OpenMode, read_write, write_new, empty_status, loop_ctl_get_free, loop_clr_fd, loop_set_fd,
  loop_set_status64, open_device, with_control, set_status, with_backing, set_size, with_new,
  LoopCall, System, IoError, LoopDevice, opening, calling, closing, create, attach, detach,
  create_sparse,
}

-- The first occurrence is left out.
abbrev pub without : ℕ → List ℕ → List ℕ
without fd [] = []
without fd (f ∷ fs) = let rest = without fd fs in if f == fd then fs else f ∷ rest

pub without-head : (fd : ℕ) (l : List ℕ) → without fd (fd ∷ l) ≡ l
without-head fd l = ground arith

without-second : (fd other : ℕ) (l : List ℕ) → without fd (other ∷ fd ∷ l) ≡ other ∷ l
without-second fd other l = ground arith

module _ {W : Type 0} (s : System W) (opened : W → List ℕ) where
  -- Opening a file adds its descriptor, closing it takes it away, and the other calls leave the open
  -- files alone.
  pub record IsTracked : Type 0 where
    pub open_some :
        (mode : OpenMode) (path : String) (w : W) (fd : ℕ)
        → (s.open_file mode path w).0 ≡ some fd
        → opened (s.open_file mode path w).1 ≡ fd ∷ opened w
    pub open_none :
        (mode : OpenMode) (path : String) (w : W)
        → (s.open_file mode path w).0 ≡ none
        → opened (s.open_file mode path w).1 ≡ opened w
    pub ioctl_kept : (fd : ℕ) (c : LoopCall) (w : W) → opened (s.ioctl fd c w).1 ≡ opened w
    pub set_len_kept : (fd size : ℕ) (w : W) → opened (s.set_len fd size w).1 ≡ opened w
    pub closed : (fd : ℕ) (w : W) → opened (s.close fd w) ≡ without fd (opened w)

  -- A call that does not panic: the open files behind its success, by what it returns, and behind
  -- its failure.
  abbrev pub Leaves : {A : Type 0} → (A → List ℕ) → List ℕ → Outcome IoError W A → Type 0
  Leaves f l (done a w) = opened w ≡ f a
  Leaves f l (fail e w) = opened w ≡ l
  Leaves f l panic = ⊥

  opening-Leaves :
      {A : Type 0} (f : A → List ℕ) (l : List ℕ) (mode : OpenMode) (path : String)
      (rest : ℕ → Exec IoError W A) (w : W)
      → IsTracked
      → opened w ≡ l
      → ((fd : ℕ) (v : W) → opened v ≡ fd ∷ l → Leaves f l (rest fd v))
      → Leaves f l (opening s mode path rest w)
  opening-Leaves f l mode path rest w t e k = elim (Option-cases (s.open_file mode path w).0) [
    | inl q ↦ rw (q, opening) (t.open_none mode path w q ∙ e)
    | inr (fd, q) ↦
        rw (q, opening)
          (k fd (s.open_file mode path w).1 (t.open_some mode path w fd q ∙ ap (◌∷◌ fd) e))
  ]

  calling-Leaves :
      {A : Type 0} (f : A → List ℕ) (l : List ℕ) (fd : ℕ) (c : LoopCall)
      (rest : ℕ → Exec IoError W A) (w : W)
      → IsTracked
      → opened w ≡ l
      → ((n : ℕ) (v : W) → opened v ≡ l → Leaves f l (rest n v))
      → Leaves f l (calling s fd c rest w)
  calling-Leaves f l fd c rest w t e k = elim (Option-cases (s.ioctl fd c w).0) [
    | inl q ↦ rw (q, calling) (t.ioctl_kept fd c w ∙ e)
    | inr (n, q) ↦ rw (q, calling) (k n (s.ioctl fd c w).1 (t.ioctl_kept fd c w ∙ e))
  ]

  closing-Leaves :
      {A : Type 0} (f g : A → List ℕ) (l : List ℕ) (fd : ℕ) (o : Outcome IoError W A)
      → IsTracked
      → ((a : A) → without fd (g a) ≡ f a)
      → Leaves g (fd ∷ l) o
      → Leaves f l (closing s fd o)
  closing-Leaves f g l fd (done a w) t k h = t.closed fd w ∙ ap (without fd) h ∙ k a
  closing-Leaves f g l fd (fail e w) t k h = t.closed fd w ∙ ap (without fd) h ∙ without-head fd l
  closing-Leaves f g l fd panic t k h = h

  -- If the open files are tracked, then creating a loop device leaves one file more open, that of
  -- the device, if it succeeds, and none if it fails. It does not panic.
  pub create-Leaves : (w : W) → IsTracked → Leaves (λ d. d.fd ∷ opened w) (opened w) (create s w)
  unfolding create
  create-Leaves w t =
      let l = opened w in
      opening-Leaves (λ d. d.fd ∷ l) l read_write "/dev/loop-control" (with_control s) w t refl
        (λ ctrl v e.
          let f : LoopDevice → List ℕ = λ d. d.fd ∷ ctrl ∷ l in
          closing-Leaves (λ d. d.fd ∷ l) f l ctrl
            (calling s ctrl loop_ctl_get_free (open_device s) v) t (λ d. without-second ctrl d.fd l)
            (calling-Leaves f (ctrl ∷ l) ctrl loop_ctl_get_free (open_device s) v t e (λ n u q.
              let path = concat "/dev/loop" (decimal n) in
              opening-Leaves f (ctrl ∷ l) read_write path
                (λ fd x. done (record { fd = fd; path = path }) x) u t q (λ fd x r. r))))

  set_status-Leaves :
      (d : LoopDevice) (n : ℕ) (l : List ℕ) (w : W)
      → IsTracked
      → opened w ≡ l
      → Leaves (λ _. l) l (set_status s d n w)
  set_status-Leaves d n l w t e =
      calling-Leaves (λ _. l) l d.fd (loop_set_status64 empty_status) (λ _ x. done tt x) w t e
        (λ m x r. r)

  attach-Leaves :
      (d : LoopDevice) (file : String) (w : W)
      → IsTracked
      → Leaves (λ _. opened w) (opened w) (attach s d file w)
  unfolding attach
  attach-Leaves d file w t =
      let l = opened w in
      opening-Leaves (λ _. l) l read_write file (with_backing s d) w t refl
        (λ f v e.
          closing-Leaves (λ _. l) (λ _. f ∷ l) l f
            (calling s d.fd (loop_set_fd f) (set_status s d) v) t (λ _. without-head f l)
            (calling-Leaves (λ _. f ∷ l) (f ∷ l) d.fd (loop_set_fd f) (set_status s d) v t e
              (λ n u q. set_status-Leaves d n (f ∷ l) u t q)))

  detach-Leaves :
      (d : LoopDevice) (w : W) → IsTracked → Leaves (λ _. opened w) (opened w) (detach s d w)
  unfolding detach
  detach-Leaves d w t =
      calling-Leaves (λ _. opened w) (opened w) d.fd loop_clr_fd (λ _ x. done tt x) w t refl
        (λ n v e. e)

  set_size-Leaves :
      (size f : ℕ) (l : List ℕ) (w : W)
      → IsTracked
      → opened w ≡ l
      → Leaves (λ _. l) l (set_size s size f w)
  set_size-Leaves size f l w t e = elim (Bool-cases (s.set_len f size w).0) [
    | inl q ↦ rw (q, set_size) (t.set_len_kept f size w ∙ e)
    | inr q ↦ rw (q, set_size) (t.set_len_kept f size w ∙ e)
  ]

  create_sparse-Leaves :
      (path : String) (size : ℕ) (w : W)
      → IsTracked
      → Leaves (λ _. opened w) (opened w) (create_sparse s path size w)
  unfolding create_sparse
  create_sparse-Leaves path size w t =
      let l = opened w in
      opening-Leaves (λ _. l) l write_new path (with_new s size) w t refl
        (λ f v e.
          closing-Leaves (λ _. l) (λ _. f ∷ l) l f (set_size s size f v) t (λ _. without-head f l)
            (set_size-Leaves size f (f ∷ l) v t e))

  -- If the open files are tracked, then attaching a file to a loop device, detaching it and creating
  -- a sparse file leave the open files as they were, whether they succeed or fail, and do not panic.
  pub open_files-kept :
      (d : LoopDevice) (file : String) (size : ℕ) (w : W)
      → IsTracked
      → Leaves (λ _. opened w) (opened w) (attach s d file w)
        × Leaves (λ _. opened w) (opened w) (detach s d w)
        × Leaves (λ _. opened w) (opened w) (create_sparse s file size w)
  open_files-kept d file size w t =
      (attach-Leaves d file w t, detach-Leaves d w t, create_sparse-Leaves file size w t)
