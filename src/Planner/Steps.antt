-- ===== src/Planner/Steps.antt =====
-- The planner as a state machine (crates/partitioning/src/planner.rs): what a client can do to it,
-- and what stays true.
use disks_rs.Base.{
  ℕ, zero, suc, ◌<◌, ◌≡◌, refl, sym, ap, ◌∙◌, subst, inl, inr, Option, some, List, [], ◌∷◌, ◌++◌,
  arith, All, Pairwise-append_one, Option-cases, some-inj, done, length, get_elem?,
}
use mathlib.Core.List.{append-nil}
use disks_rs.Planner.{
  Change, add_partition, delete_partition, Region, Planner, layout_of, current_layout, drop_last,
  undo, reset, plan_initialize_disk, plan_delete_partition, plan_add_partition_with_attributes,
  aligned_start, aligned_end,
}
use disks_rs.Planner.Adding.{Apart, plan_add_iff}
use disks_rs.Planner.History.{
  IsDisjoint, region_of, drop_last-append, layout-append_add, layout-append_delete,
}

module _ {A : Type 0} where
  -- One successful call on the planner.
  pub data Step (p q : Planner A) : Type 0 where
    add :
        (s e : ℕ) (a : Option A) → plan_add_partition_with_attributes s e a p ≡ done tt q → Step p q
    delete : (i : ℕ) → plan_delete_partition i p ≡ done tt q → Step p q
    undone : q ≡ (undo p).0 → Step p q
    cleared : q ≡ reset p → Step p q
    initialized : q ≡ plan_initialize_disk p → Step p q

  pub data Reach (p : Planner A) : Planner A → Type 0 where
    here : Reach p p
    next : {q r : Planner A} → Reach p q → Step q r → Reach p r

  -- The changes that are left when the last `n` are undone.
  abbrev pub undo_times : ℕ → List (Change A) → List (Change A)
  undo_times zero cs = cs
  undo_times (suc n) cs = undo_times n (drop_last cs)

  -- The invariant: the original regions share no position, nor do those of the layout now or after
  -- any number of calls of `undo`.
  pub record IsSound (p : Planner A) : Type 0 where
    pub original : IsDisjoint p.original_regions
    pub layouts :
        (n : ℕ) (l : List (Region A))
        → layout_of p.original_regions (undo_times n p.changes) ≡ some l
        → IsDisjoint l

  pub delete-done :
      (i : ℕ) (p q : Planner A)
      → plan_delete_partition i p ≡ done tt q
      → (n : ℕ) × (i < length p.original_regions)
        × (q ≡ record p { changes = p.changes ++ delete_partition i n ∷ [] })
  unfolding plan_delete_partition
  delete-done i p q h = elim (Option-cases (get_elem? p.original_partition_ids i)) [
    | inl e ↦ ground arith
    | inr (n, e) ↦ (n, ground arith, ground arith)
  ]

  undo_times-nil : (n : ℕ) → undo_times n [] ≡ []
  undo_times-nil zero = refl
  undo_times-nil (suc n) = undo_times-nil n

  -- A planned region is apart from each region that the layout had.
  All-flip : (r : Region A) (l : List (Region A)) → All (Apart r) l → All (λ x. Apart x r) l
  All-flip r [] h = tt
  All-flip r (x ∷ l) h = (ground arith, All-flip r l h.1)

  pub layout_of-nil : (o : List (Region A)) → layout_of o [] ≡ some o
  unfolding layout_of
  layout_of-nil o = rw append-nil

  -- What holds of a history with one more change, and of each history that `undo` leads back to.
  undo_times-append :
      (P : List (Change A) → Type 0) (cs : List (Change A)) (c : Change A)
      → P (cs ++ c ∷ [])
      → ((n : ℕ) → P (undo_times n cs))
      → (n : ℕ) → P (undo_times n (cs ++ c ∷ []))
  undo_times-append P cs c h k zero = h
  undo_times-append P cs c h k (suc n) = rw drop_last-append (k n)

  -- The statement of the field `layouts` at one history.
  abbrev SoundAt : List (Region A) → List (Change A) → Type 0
  SoundAt o cs = (l : List (Region A)) → layout_of o cs ≡ some l → IsDisjoint l

  add-IsSound :
      (s e : ℕ) (a : Option A) (p q : Planner A)
      → plan_add_partition_with_attributes s e a p ≡ done tt q
      → IsSound p
      → IsSound q
  add-IsSound s e a p q h v =
      let (acc, eq) = (plan_add_iff s e a p q).0 h in
      let r = region_of (aligned_start s p) (aligned_end e p) p.next_partition_id a in
      let grown : IsDisjoint (acc.layout ++ r ∷ []) =
        Pairwise-append_one Apart acc.layout r (v.layouts 0 acc.layout acc.is_layout)
          (All-flip r acc.layout acc.apart) in
      rw eq (record {
        original = v.original;
        layouts =
            undo_times-append (SoundAt p.original_regions) p.changes
              (add_partition (aligned_start s p) (aligned_end e p) p.next_partition_id a)
              (λ l f.
                subst IsDisjoint
                  (some-inj (
                    sym (
                      layout-append_add p.original_regions p.changes (aligned_start s p)
                        (aligned_end e p) p.next_partition_id a acc.layout acc.is_layout)
                    ∙ f))
                  grown)
              v.layouts;
      })

  delete-IsSound :
      (i : ℕ) (p q : Planner A) → plan_delete_partition i p ≡ done tt q → IsSound p → IsSound q
  delete-IsSound i p q h v =
      let (n, _, eq) = delete-done i p q h in
      rw eq (record {
        original = v.original;
        layouts =
            undo_times-append (SoundAt p.original_regions) p.changes (delete_partition i n)
              (λ l f.
                let (m, e, keep) =
                  layout-append_delete p.original_regions p.changes i n v.original f in
                keep (v.layouts 0 m e))
              v.layouts;
      })

  no_changes-IsSound : (p : Planner A) → p.changes ≡ [] → IsDisjoint p.original_regions → IsSound p
  no_changes-IsSound p none_left d = record {
    original = d;
    layouts = λ n l f.
        subst IsDisjoint
          (some-inj (
            sym (layout_of-nil p.original_regions)
            ∙ sym
                (ap (layout_of p.original_regions) (ap (undo_times n) none_left ∙ undo_times-nil n))
            ∙ f))
          d;
  }

  Step-IsSound : (p q : Planner A) → Step p q → IsSound p → IsSound q
  unfolding undo reset plan_initialize_disk
  Step-IsSound p q (add s e a h) v = add-IsSound s e a p q h v
  Step-IsSound p q (delete i h) v = delete-IsSound i p q h v
  Step-IsSound p q (undone e) v =
      rw e (record { original = v.original; layouts = λ n. v.layouts (suc n) })
  Step-IsSound p q (cleared e) v =
      rw e (no_changes-IsSound (record p { changes = [] }) refl v.original)
  Step-IsSound p q (initialized e) v = rw e (no_changes-IsSound (plan_initialize_disk p) refl tt)

  Reach-IsSound : (p q : Planner A) → IsSound p → Reach p q → IsSound q
  Reach-IsSound p q v here = v
  Reach-IsSound p q v (next {q = m} r s) = Step-IsSound m q s (Reach-IsSound p m v r)

  -- Take a planner with no pending changes whose original regions share no position. Whatever
  -- sequence of successful calls (additions, deletions, `undo`, `reset`, `plan_initialize_disk`)
  -- led from it to `q`: if the layout of `q` can be computed, no two of its regions overlap.
  pub Reach-IsDisjoint :
      (p q : Planner A) (l : List (Region A))
      → p.changes ≡ []
      → IsDisjoint p.original_regions
      → Reach p q
      → current_layout q ≡ some l
      → IsDisjoint l
  Reach-IsDisjoint p q l e d r h = (Reach-IsSound p q (no_changes-IsSound p e d) r).layouts 0 l h
