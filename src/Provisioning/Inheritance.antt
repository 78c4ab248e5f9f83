-- ===== src/Provisioning/Inheritance.antt =====
-- Inheritance between strategies: crates/provisioning/src/provisioner.rs, `strategy_parents`.
use disks_rs.Base.{
  ℕ, zero, suc, ◌<◌, ◌≡◌, refl, arith, inl, inr, Option-cases, String, none, some, List, [], ◌∷◌,
  ◌++◌,
}
use disks_rs.Provisioning.Parser.{StrategyDefinition}
use disks_rs.Provisioning.Provisioner.{Provisioner, lookup, strategy_parents}

-- A strategy that inherits from itself has no finite chain of parents: no depth of calls is enough.
pub strategy_parents_self :
    (fuel : ℕ) (p : Provisioner) (s : StrategyDefinition) (n : String)
    → s.inherits ≡ some n
    → lookup n p.configs ≡ some s
    → strategy_parents fuel p s ≡ none
unfolding strategy_parents
strategy_parents_self zero p s n i l = refl
strategy_parents_self (suc fuel) p s n i l =
    simp (i, l, strategy_parents_self fuel p s n i l, strategy_parents)

-- A ranking of the strategies by which each is above its parent.
abbrev pub IsRanked : (StrategyDefinition → ℕ) → Provisioner → Type 0
IsRanked rank p =
    (s q : StrategyDefinition) (n : String)
    → s.inherits ≡ some n
    → lookup n p.configs ≡ some q
    → rank q < rank s

-- If the strategies can be ranked so that each is above its parent, the chain of a strategy is
-- found with a depth of calls above its rank, and ends with the strategy itself.
pub strategy_parents-ranked :
    (rank : StrategyDefinition → ℕ) (p : Provisioner) (fuel : ℕ) (s : StrategyDefinition)
    → IsRanked rank p
    → rank s < fuel
    → (above : List StrategyDefinition) × (strategy_parents fuel p s ≡ some (above ++ s ∷ []))
unfolding strategy_parents
strategy_parents-ranked rank p zero s r h = absurd (omega arith)
strategy_parents-ranked rank p (suc fuel) s r h = elim (Option-cases s.inherits) [
  | inl e ↦ ([], simp (e, strategy_parents))
  | inr (n, e) ↦ elim (Option-cases (lookup n p.configs)) [
    | inl f ↦ ([], simp (e, f, strategy_parents))
    | inr (q, f) ↦
        let lower = r s q n e f in
        let (above, g) = strategy_parents-ranked rank p fuel q r (omega arith) in
        (above ++ q ∷ [], simp (e, f, g, strategy_parents))
  ]
]
