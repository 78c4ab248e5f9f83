-- ===== src/Strategy/Cleanup.antt =====
-- What a failing strategy leaves behind.
use disks_rs.Base.{
  ℕ, zero, suc, ◌+◌, ◌-◌, ◌≤◌, ◌≡◌, refl, inl, inr, Bool-cases, Option, List, [], ◌∷◌, arith,
  length, length-append, add64, sub64, Exec, Outcome, done, fail, panic, ltb, false,
}
use disks_rs.Planner.{
  PlanError, Planner, Change, plan_add_partition_with_attributes, undo, has_changes, drop_last,
}
use disks_rs.Planner.Adding.{plan_add_iff}
use disks_rs.Strategy.{
  exact, PartitionRequest, Flexible, exact_pass, or_clean_up, undo_while, undo_all, flexible_pass,
  flexible_size,
}
use disks_rs.Strategy.Steps.{plan_add-fail}

module _ {A : Type 0} where
  length-drop_last : (cs : List (Change A)) → length (drop_last cs) ≡ length cs - 1
  length-drop_last [] = omega arith
  length-drop_last (c ∷ []) = omega arith
  length-drop_last (c ∷ d ∷ cs) = omega (arith, length-drop_last (d ∷ cs))

  nil_of_length : (cs : List (Change A)) → length cs ≤ 0 → cs ≡ []
  nil_of_length [] h = refl
  nil_of_length (c ∷ cs) h = absurd (omega arith)

  nil_of_has_changes : (p : Planner A) → has_changes p ≡ false → p.changes ≡ []
  nil_of_has_changes p h = ground arith

  changes-undo_while :
      (fuel : ℕ) (p : Planner A) → length p.changes ≤ fuel → (undo_while fuel p).changes ≡ []
  unfolding undo_while undo
  changes-undo_while zero p h = nil_of_length p.changes h
  changes-undo_while (suc fuel) p h = elim (Bool-cases (has_changes p)) [
    | inl more ↦
        rw (more, undo_while)
          (changes-undo_while fuel (undo p).0 (omega (arith, length-drop_last p.changes)))
    | inr clear ↦ rw (clear, undo_while) (nil_of_has_changes p clear)
  ]

  -- The fuel of the clean-up loop is enough: it ends with no changes.
  pub changes-undo_all : (p : Planner A) → (undo_all p).changes ≡ []
  unfolding undo_all
  changes-undo_all p = changes-undo_while (length p.changes) p (omega arith)

  or_clean_up-fail :
      (o : Outcome PlanError (Planner A) Unit) (rest : Exec PlanError (Planner A) Unit)
      (q : Planner A) (e : PlanError)
      → or_clean_up o rest ≡ fail e q
      → ((p : Planner A) → rest p ≡ fail e q → q.changes ≡ [])
      → q.changes ≡ []
  or_clean_up-fail (done _ p) rest q e h k = k p h
  or_clean_up-fail (fail f p) rest q e h k = ground (arith, changes-undo_all p)
  or_clean_up-fail panic rest q e h k = cc

  -- If the flexible pass fails, it leaves no pending change, not even those that were planned
  -- before the strategy was applied.
  pub flexible_pass-fail :
      (qs : List (PartitionRequest A)) (fs : List Flexible) (c l : ℕ) (p q : Planner A)
      (e : PlanError)
      → flexible_pass qs fs c l p ≡ fail e q
      → q.changes ≡ []
  unfolding flexible_pass
  flexible_pass-fail qs [] c l p q e h = cc
  flexible_pass-fail qs (f ∷ fs) c l p q e h = elim (Bool-cases (ltb l f.least)) [
    | inl short ↦ ground (arith, changes-undo_all p)
    | inr enough ↦
        let n = flexible_size (length fs) l f in
        or_clean_up-fail _ (flexible_pass qs fs (add64 c n) (sub64 l n)) q e (rw enough at h)
          (λ p' k. flexible_pass-fail qs fs (add64 c n) (sub64 l n) p' q e k)
  ]

  -- If the second of two exact requests is refused, the partition of the first stays planned.
  pub exact_pass-fail :
      (n m : ℕ) (a b : Option A) (qs : List (PartitionRequest A)) (c l : ℕ) (p q r : Planner A)
      (e : PlanError)
      → plan_add_partition_with_attributes c (add64 c n) a p ≡ done tt q
      → plan_add_partition_with_attributes (add64 c n) (add64 (add64 c n) m) b q ≡ fail e r
      → (exact_pass
            (record { size = exact n; attributes = a }
              ∷ record { size = exact m; attributes = b }
              ∷ qs)
            c
            l
            p
          ≡ fail e r)
        × (length r.changes ≡ length p.changes + 1)
  unfolding exact_pass
  exact_pass-fail n m a b qs c l p q r e h k = (
    rw (h, k),
    rw (plan_add-fail _ _ b q r e k, ((plan_add_iff c (add64 c n) a p q).0 h).1)
        (length-append p.changes _),
  )
