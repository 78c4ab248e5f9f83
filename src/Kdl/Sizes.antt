-- ===== src/Kdl/Sizes.antt =====
-- Sizes and constraints as they are read: crates/types/src/kdl_helpers.rs and constraints.rs.
use disks_rs.Base.{
  ℕ, ◌-◌, ◌≤◌, ◌*◌, ◌<◌, ◌≡◌, ◌≢◌, refl, ap, ◌∙◌, subst, arith, inl, inr, some, Result, ok, err,
  ◌>>=◌, mul64, mul64-eq, u64_mod, any, Bool-cases, Option-cases,
}
use disks_rs.Base.Text.{str_eq}
use disks_rs.Base.Int.{ℤ, pos, negsuc, to_u64}
use disks_rs.Types.{Error, StorageUnit, factor, unit_from_str, Constraints}
use disks_rs.Kdl.{
  Kdl, kdl_value_to_storage_size, kdl_value_to_integer, unit_from_kdl_type, ty_id,
  constraints_from_kdl_node, single_constraint, size_of, child,
}

n≤n*factor : (n : ℕ) (u : StorageUnit) → n ≤ n * factor u
unfolding factor
n≤n*factor n u = elim u as (λ v. n ≤ n * factor v) [
  | StorageUnit.bytes ↦ omega arith
  | StorageUnit.kilobytes ↦ omega arith
  | StorageUnit.megabytes ↦ omega arith
  | StorageUnit.gigabytes ↦ omega arith
  | StorageUnit.terabytes ↦ omega arith
  | StorageUnit.kibibytes ↦ omega arith
  | StorageUnit.mebibytes ↦ omega arith
  | StorageUnit.gibibytes ↦ omega arith
  | StorageUnit.tebibytes ↦ omega arith
]

to_u64-eq : (n : ℕ) → n < u64_mod → to_u64 (pos n) ≡ n
unfolding to_u64
to_u64-eq n h = omega arith

to_u64-negsuc : (n : ℕ) → n < u64_mod → to_u64 (negsuc n) ≡ u64_mod - 1 - n
unfolding to_u64
to_u64-negsuc n h = omega arith

module _ {N E S : Type 0} (k : Kdl N E S) where
  -- The sizes that are read, by the number and its unit.
  size-eq :
      (e : E) (v : ℤ) (u : StorageUnit)
      → k.as_integer e ≡ some v
      → unit_from_str {S = S} (ty_id k e "b") ≡ ok u
      → kdl_value_to_storage_size k e ≡ ok (mul64 (to_u64 v) (factor u))
  unfolding kdl_value_to_storage_size kdl_value_to_integer unit_from_kdl_type
  size-eq e v u i t = rw (i, t) refl

  -- A size that is written as a natural number, in a unit that the annotation names, is read as that
  -- number of bytes, if it is below 2 ^ 64.
  pub storage_size-pos :
      (e : E) (n : ℕ) (u : StorageUnit)
      → k.as_integer e ≡ some (pos n)
      → unit_from_str {S = S} (ty_id k e "b") ≡ ok u
      → n * factor u < u64_mod
      → kdl_value_to_storage_size k e ≡ ok (n * factor u)
  storage_size-pos e n u i t fits =
      size-eq e (pos n) u i t
      ∙ ap ok (
          mul64-eq (to_u64 (pos n)) (factor u)
            (rw (to_u64-eq n (omega (arith, n≤n*factor n u))) fits)
          ∙ ap (λ m. m * factor u) (to_u64-eq n (omega (arith, n≤n*factor n u))))

  -- A negative size is accepted: -(n + 1) bytes are read as 2 ^ 64 - (n + 1).
  pub storage_size-negsuc :
      (e : E) (n : ℕ)
      → k.as_integer e ≡ some (negsuc n)
      → unit_from_str {S = S} (ty_id k e "b") ≡ ok StorageUnit.bytes
      → n < u64_mod
      → kdl_value_to_storage_size k e ≡ ok (u64_mod - 1 - n)
  unfolding factor
  storage_size-negsuc e n i t h =
      size-eq e (negsuc n) StorageUnit.bytes i t
      ∙ ap ok (
          mul64-eq (to_u64 (negsuc n)) 1 (omega (arith, to_u64-negsuc n h))
          ∙ omega (arith, to_u64-negsuc n h))

  -- A result that is not the invalid constraint.
  abbrev IsDefinite : Result (Error S) Constraints → Type 0
  IsDefinite (ok Constraints.invalid) = ⊥
  IsDefinite _ = Unit

  bind-IsDefinite :
      {A : Type 0} (r : Result (Error S) A) (f : A → Result (Error S) Constraints)
      → ((a : A) → IsDefinite (f a))
      → IsDefinite (r >>= f)
  bind-IsDefinite (ok a) f h = h a
  bind-IsDefinite (err x) f h = tt

  single-IsDefinite : (n : N) → IsDefinite (single_constraint k n)
  single-IsDefinite n = elim (Option-cases (child k "min" n)) [
    | inr (least, e) ↦
        rw (e, single_constraint)
          (bind-IsDefinite (size_of k least) (λ m. ok (Constraints.at_least m)) (λ a. tt))
    | inl e ↦ elim (Option-cases (child k "exactly" n)) [
      | inr (least, f) ↦
          rw (e, f, single_constraint)
            (bind-IsDefinite (size_of k least) (λ m. ok (Constraints.exact m)) (λ a. tt))
      | inl f ↦ elim (Bool-cases (any (λ m. str_eq (k.name m) "remaining") (k.iter_children n))) [
        | inl t ↦ rw (e, f, t, single_constraint) tt
        | inr t ↦ rw (e, f, t, single_constraint) tt
      ]
    ]
  ]

  constraints-IsDefinite : (n : N) → IsDefinite (constraints_from_kdl_node k n)
  unfolding constraints_from_kdl_node
  constraints-IsDefinite n = elim (Option-cases (child k "min" n)) [
    | inl e ↦ rw (e, constraints_from_kdl_node) (single-IsDefinite n)
    | inr (least, e) ↦ elim (Option-cases (child k "max" n)) [
      | inl f ↦ rw (e, f, constraints_from_kdl_node) (single-IsDefinite n)
      | inr (most, f) ↦
          rw (e, f, constraints_from_kdl_node)
            (bind-IsDefinite (size_of k least)
              (λ m. size_of k most >>= λ l. ok (Constraints.range m l))
              (λ a. bind-IsDefinite (size_of k most) (λ l. ok (Constraints.range a l)) (λ b. tt)))
    ]
  ]

  -- A constraints node is never read as the invalid constraint.
  pub constraints_from_kdl_node-valid :
      (n : N) (c : Constraints) → constraints_from_kdl_node k n ≡ ok c → c ≢ Constraints.invalid
  constraints_from_kdl_node-valid n c h e =
      subst IsDefinite (h ∙ ap ok e) (constraints-IsDefinite n)
