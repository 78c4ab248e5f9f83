-- ===== src/Writer/Validation.antt =====
-- Validation of the planned changes: crates/partitioning/src/writer.rs, `validate_changes`.
use disks_rs.Base.{
  All-keep_if, ℕ, ◌<◌, ◌≡◌, refl, arith, false, not, List, [], ◌∷◌, All, All-map, Pairwise, keep_if,
  ◌==◌, ok,
}
use disks_rs.Planner.{Change, add_partition, delete_partition, Planner}
use disks_rs.Planner.Numbers.{added_ids, IsNumbered}
use disks_rs.Writer.Changes.{contains, validate, validate_changes}

contains-below : (id : ℕ) (used : List ℕ) → All (λ u. u < id) used → contains id used ≡ false
contains-below id [] h = refl
contains-below id (u ∷ used) h = ground (arith, contains-below id used h.1)

All-both :
    (id : ℕ) (used ids : List ℕ)
    → All (λ i. id < i) ids
    → All (λ i. All (λ u. u < i) used) ids
    → All (λ i. All (λ u. u < i) (id ∷ used)) ids
All-both id used [] h k = tt
All-both id used (i ∷ ids) h k = ((h.0, k.0), All-both id used ids h.1 k.1)

module _ {A : Type 0} where
  -- Rising ids above the used ones are accepted.
  pub validate-rising :
      (used : List ℕ) (cs : List (Change A))
      → Pairwise ◌<◌ (added_ids cs)
      → All (λ i. All (λ u. u < i) used) (added_ids cs)
      → validate used cs ≡ ok tt
  unfolding validate
  validate-rising used [] r h = refl
  validate-rising used (add_partition s e id a ∷ cs) r h =
      rw (contains-below id used h.0)
        (validate-rising (id ∷ used) cs r.1 (All-both id used (added_ids cs) r.0 h.1))
  validate-rising used (delete_partition i id ∷ cs) r h =
      validate-rising (keep_if (λ u. not (u == id)) used) cs r (
        All-map (λ j. All (λ u. u < j) used)
          (λ j. All (λ u. u < j) (keep_if (λ u. not (u == id)) used)) (added_ids cs)
          (λ j. All-keep_if (λ u. u < j) (λ u. not (u == id)) used) h)

  -- Validation accepts the changes of every planner whose ids are numbered.
  pub validate_changes-IsNumbered : (p : Planner A) → IsNumbered p → validate_changes p ≡ ok tt
  unfolding validate_changes
  validate_changes-IsNumbered p v =
      validate-rising [] p.changes v.rising (All-map _ _ _ (λ i h. tt) v.below)
