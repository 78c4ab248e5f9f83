-- ===== src/Disktester/Files.antt =====
-- No file stays open behind the program: crates/disktester/src/main.rs, `main`.
use disks_rs.Base.{
  ℕ, ◌≡◌, ap, subst, ◌*◌, ◌∙◌, Option, none, some, List, ◌∷◌, Outcome, done, fail, panic,
}
use disks_rs.Disks.Sysfs.{path_of}
use disks_rs.Loopback.{LoopDevice, IoError, create, attach, detach, create_sparse, closing}
use disks_rs.Loopback.Descriptors.{Leaves, without, without-head, create-Leaves, open_files-kept}
use disks_rs.Writer.Frame.{Holds}
use disks_rs.Disktester.{
  Host, TestError, apply_partitioning, then_detach, partitioned, with_device, image_path, main,
}
use disks_rs.Disktester.Kept.{MayHold, IsTidy, apply_partitioning-MayHold}

module _ {W N E S T G U : Type 0} (h : Host W N E S T G U) (opened : W → List ℕ) where
  module _ (i : IsTidy h opened) where
    Leaves-Holds :
        (l : List ℕ) (o : Outcome IoError W Unit)
        → Leaves h.loops opened (λ _. l) l o
        → Holds (λ v. opened v ≡ l) o
    Leaves-Holds l (done _ w) e = e
    Leaves-Holds l (fail _ w) e = e
    Leaves-Holds l panic e = tt

    closing-Holds :
        (fd : ℕ) (l : List ℕ) (o : Outcome IoError W Unit)
        → Holds (λ v. opened v ≡ fd ∷ l) o
        → Holds (λ v. opened v ≡ l) (closing h.loops fd o)
    closing-Holds fd l (done _ w) e = i.tracked.closed fd w ∙ ap (without fd) e ∙ without-head fd l
    closing-Holds fd l (fail _ w) e = i.tracked.closed fd w ∙ ap (without fd) e ∙ without-head fd l
    closing-Holds fd l panic e = tt

    detach-Holds :
        (d : LoopDevice) (l : List ℕ) (w : W)
        → opened w ≡ l
        → Holds (λ v. opened v ≡ l) (detach h.loops d w)
    detach-Holds d l w e = Leaves-Holds l (detach h.loops d w) (
        subst (λ k. Leaves h.loops opened (λ _. k) k (detach h.loops d w)) e
          (open_files-kept h.loops opened d image_path 0 w i.tracked).1)

    then_detach-Holds :
        (d : LoopDevice) (l : List ℕ) (o : Outcome (TestError S) W Unit)
        → Holds (λ v. opened v ≡ l) o
        → Holds (λ v. opened v ≡ l) (then_detach h d o)
    then_detach-Holds d l (done _ w) e = detach-Holds d l w e
    then_detach-Holds d l (fail _ w) e = detach-Holds d l w e
    then_detach-Holds d l panic e = tt

    partitioned-MayHold :
        (d : LoopDevice) (l : List ℕ) (o : Option (Outcome (TestError S) W Unit))
        → MayHold (λ v. opened v ≡ d.fd ∷ l) o
        → MayHold (λ v. opened v ≡ l) (partitioned h d o)
    partitioned-MayHold d l none e = tt
    partitioned-MayHold d l (some o) e =
        closing-Holds d.fd l (then_detach h d o) (then_detach-Holds d (d.fd ∷ l) o e)

    attached-MayHold :
        (fuel depth : ℕ) (d : LoopDevice) (l : List ℕ) (o : Outcome IoError W Unit)
        → Holds (λ v. opened v ≡ d.fd ∷ l) o
        → MayHold
            (λ v. opened v ≡ l)
            (elim o [
              | done _ w1 ↦ partitioned h d (apply_partitioning h fuel depth (path_of d.path) w1)
              | fail e w1 ↦ some (closing h.loops d.fd (fail e w1))
              | panic ↦ some panic
            ])
    attached-MayHold fuel depth d l (done _ w) e =
        partitioned-MayHold d l (apply_partitioning h fuel depth (path_of d.path) w)
          (apply_partitioning-MayHold h opened i (d.fd ∷ l) fuel depth (path_of d.path) w e)
    attached-MayHold fuel depth d l (fail x w) e = closing-Holds d.fd l (fail x w) e
    attached-MayHold fuel depth d l panic e = tt

    with_device-MayHold :
        (fuel depth : ℕ) (d : LoopDevice) (l : List ℕ) (w : W)
        → opened w ≡ d.fd ∷ l
        → MayHold (λ v. opened v ≡ l) (with_device h fuel depth d w)
    unfolding with_device
    with_device-MayHold fuel depth d l w e =
        attached-MayHold fuel depth d l (attach h.loops d image_path w) (
          Leaves-Holds (d.fd ∷ l) (attach h.loops d image_path w) (
            subst (λ k. Leaves h.loops opened (λ _. k) k (attach h.loops d image_path w)) e
              (open_files-kept h.loops opened d image_path 0 w i.tracked).0))

    created-MayHold :
        (fuel depth : ℕ) (l : List ℕ) (o : Outcome IoError W LoopDevice)
        → Leaves h.loops opened (λ d. d.fd ∷ l) l o
        → MayHold
            (λ v. opened v ≡ l)
            {E = IoError}
            {A = Unit}
            (elim o [
              | fail e w2 ↦ some (fail e w2)
              | panic ↦ some panic
              | done d w2 ↦ with_device h fuel depth d w2
            ])
    created-MayHold fuel depth l (done d w) e = with_device-MayHold fuel depth d l w e
    created-MayHold fuel depth l (fail x w) e = e
    created-MayHold fuel depth l panic e = tt

    image-MayHold :
        (fuel depth : ℕ) (l : List ℕ) (o : Outcome IoError W Unit)
        → Leaves h.loops opened (λ _. l) l o
        → MayHold
            (λ v. opened v ≡ l)
            {E = IoError}
            {A = Unit}
            (elim o [
              | fail e w1 ↦ some (fail e w1)
              | panic ↦ some panic
              | done _ w1 ↦ elim (create h.loops w1) [
                | fail e w2 ↦ some (fail e w2)
                | panic ↦ some panic
                | done d w2 ↦ with_device h fuel depth d w2
              ]
            ])
    image-MayHold fuel depth l (done _ w) e = created-MayHold fuel depth l (create h.loops w) (
        subst (λ k. Leaves h.loops opened (λ d. d.fd ∷ k) k (create h.loops w)) e
          (create-Leaves h.loops opened w i.tracked))
    image-MayHold fuel depth l (fail x w) e = e
    image-MayHold fuel depth l panic e = tt

    -- Take a host whose open files are tracked: opening a file, for a loop device or by the writer,
    -- adds one or fails and adds none, closing it takes that one away, and no other call and no
    -- command changes them; a file of the writer is closed where its scope ends. Then the whole
    -- program, unless it panics or the search for devices runs out of fuel, leaves the open files as
    -- they were, whether it succeeds or fails at any point.
    pub main-MayHold :
        (fuel depth : ℕ) (w : W) → MayHold (λ v. opened v ≡ opened w) (main h fuel depth w)
    unfolding main
    main-MayHold fuel depth w =
        image-MayHold fuel depth (opened w)
          (create_sparse h.loops image_path (32 * 1024 * 1024 * 1024) w)
          (open_files-kept h.loops opened (record { fd = 0; path = "" }) image_path
            (32 * 1024 * 1024 * 1024) w i.tracked).2
