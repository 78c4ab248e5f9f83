-- ===== src/Planner/Undo.antt =====
-- `undo` and refused calls: crates/partitioning/src/planner.rs.
use disks_rs.Base.{
  ℕ, zero, suc, ◌≤◌, ◌≡◌, refl, inl, inr, true, Option, none, List, [], ◌∷◌, ◌++◌, arith,
  Option-cases, add32, done, fail, length, get_elem?,
}
use disks_rs.Planner.{
  PlanError, Change, add_partition, delete_partition, Planner, undo, has_changes,
  plan_add_partition_with_attributes, plan_delete_partition,
}
use disks_rs.Planner.Adding.{planned, plan_add_iff}
use disks_rs.Planner.History.{drop_last-append}
use disks_rs.Planner.Steps.{delete-done}

-- A lookup that finds nothing is out of range.
get_elem?-none : (l : List ℕ) (i : ℕ) → get_elem? l i ≡ none → length l ≤ i
get_elem?-none [] i h = omega arith
get_elem?-none (x ∷ l) zero h = cc
get_elem?-none (x ∷ l) (suc i) h = omega (arith, get_elem?-none l i h)

module _ {A : Type 0} where
  has_changes-append :
      (p : Planner A) (cs : List (Change A)) (c : Change A)
      → p.changes ≡ cs ++ c ∷ []
      → has_changes p ≡ true
  has_changes-append p [] c h = rw (h, has_changes)
  has_changes-append p (d ∷ cs) c h = rw (h, has_changes)

  -- `undo` right after a successful addition returns true and restores the planner, but for the
  -- partition id, which stays used.
  pub undo-plan_add :
      (s e : ℕ) (a : Option A) (p q : Planner A)
      → plan_add_partition_with_attributes s e a p ≡ done tt q
      → undo q ≡ (record p { next_partition_id = add32 p.next_partition_id 1 }, true)
  unfolding undo
  undo-plan_add s e a p q h =
      let (_, eq) = (plan_add_iff s e a p q).0 h in
      rw eq (
        cc (
          drop_last-append p.changes (add_partition _ _ p.next_partition_id a),
          has_changes-append (planned _ _ a p) p.changes _ refl,
        ))

  -- `undo` right after a successful deletion returns true and restores the planner.
  pub undo-plan_delete :
      (i : ℕ) (p q : Planner A) → plan_delete_partition i p ≡ done tt q → undo q ≡ (p, true)
  unfolding undo
  undo-plan_delete i p q h =
      let (n, _, eq) = delete-done i p q h in
      rw eq (
        cc (
          drop_last-append p.changes (delete_partition i n),
          has_changes-append (record p { changes = p.changes ++ delete_partition i n ∷ [] })
              p.changes (delete_partition i n) refl,
        ))

  -- A refused deletion leaves the planner as it was, and is one of an index out of range.
  pub plan_delete-fail :
      (i : ℕ) (p q : Planner A) (e : PlanError)
      → length p.original_partition_ids ≡ length p.original_regions
      → plan_delete_partition i p ≡ fail e q
      → (q ≡ p) × (length p.original_regions ≤ i)
  unfolding plan_delete_partition
  plan_delete-fail i p q e lens h = elim (Option-cases (get_elem? p.original_partition_ids i)) [
    | inl gone ↦ (ground arith, omega (arith, lens, get_elem?-none p.original_partition_ids i gone))
    | inr (n, here) ↦ (ground arith, ground arith)
  ]
