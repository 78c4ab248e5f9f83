-- ===== src/Provisioning/Constrained.antt =====
-- Constraints of a parsed create-partition node: crates/provisioning/src/commands/create_partition.rs.
use disks_rs.Base.{
  any-false, ◌≡◌, refl, subst, inl, inr, String, Bool, true, false, Option, some, List, [], ◌∷◌,
  Result, ok, err, ◌>>=◌, any, Bool-cases,
}
use disks_rs.Base.Text.{str_eq}
use disks_rs.Types.{PartitionRole, Constraints}
use disks_rs.Kdl.{
  Kdl, get_kdl_entry, type_kdl_from_kdl_type, type_guid_from_kdl_node, get_property_str,
}
use disks_rs.Kdl.Nodes.{filesystem_from_kdl_node}
use disks_rs.Provisioning.Commands.{
  CreatePartition, Options, no_options, read_option, read_options, read_role, checked,
  parse_create_partition,
}

-- What holds of the value, if there is one.
abbrev pub OfValue : {X A : Type 0} → (A → Type 0) → Result X A → Type 0
OfValue P (ok a) = P a
OfValue P (err e) = Unit

module _ {X A B : Type 0} (P : B → Type 0) where
  OfValue-bind :
      (r : Result X A) (f : A → Result X B) → ((a : A) → OfValue P (f a)) → OfValue P (r >>= f)
  OfValue-bind (ok a) f h = h a
  OfValue-bind (err e) f h = tt

  OfValue-bind_of :
      (Q : A → Type 0) (r : Result X A) (f : A → Result X B)
      → OfValue Q r
      → ((a : A) → Q a → OfValue P (f a))
      → OfValue P (r >>= f)
  OfValue-bind_of Q (ok a) f q h = h a q
  OfValue-bind_of Q (err e) f q h = tt

module _ {N E S : Type 0} (k : Kdl N E S) where
  abbrev pub is_constraints : N → Bool
  is_constraints n = str_eq (k.name n) "constraints"

  -- The options still have given constraints.
  abbrev Has : Constraints → Options → Type 0
  Has c p = p.constraints ≡ c

  -- A child of another name keeps the constraints.
  read_option-other :
      (n : N) (o : Options)
      → is_constraints n ≡ false
      → OfValue (Has o.constraints) (read_option k n o)
  unfolding read_option
  read_option-other n o h = elim (Bool-cases (str_eq (k.name n) "type")) [
    | inl e ↦
        simp (h, e, read_option)
          (OfValue-bind (Has o.constraints) (get_kdl_entry k n 0) _ (λ entry.
            OfValue-bind (Has o.constraints) (type_kdl_from_kdl_type k entry) _ (λ kind.
              OfValue-bind (Has o.constraints) (type_guid_from_kdl_node k n)
                (λ g. ok (record o { partition_type = some g })) (λ g. refl))))
    | inr e ↦ elim (Bool-cases (str_eq (k.name n) "filesystem")) [
      | inl f ↦
          simp (h, e, f, read_option)
            (OfValue-bind (Has o.constraints) (filesystem_from_kdl_node k n)
              (λ g. ok (record o { filesystem = some g })) (λ g. refl))
      | inr f ↦ simp (h, e, f, read_option) tt
    ]
  ]

  read_options-other :
      (ns : List N) (o : Options)
      → any is_constraints ns ≡ false
      → OfValue (Has o.constraints) (read_options k ns o)
  unfolding read_options
  read_options-other [] o h = refl
  read_options-other (n ∷ ns) o h =
      let (here, there) = any-false is_constraints n ns h in
      OfValue-bind_of (Has o.constraints) (Has o.constraints) (read_option k n o) _
        (read_option-other n o here)
        (λ p e.
          subst (λ c. OfValue (Has c) (read_options k ns p)) e (read_options-other ns p there))

  -- Without constraints a command is refused.
  checked-invalid :
      (n : N) (disk id : String) (role : Option PartitionRole) (o : Options)
      → Has Constraints.invalid o
      → OfValue (λ c. ⊥) (checked k n disk id role o)
  unfolding checked
  checked-invalid n disk id role o e = simp (e, checked) tt

  unconstrained :
      (n : N)
      → any is_constraints (k.iter_children n) ≡ false
      → OfValue (λ c. ⊥) (parse_create_partition k n)
  unfolding parse_create_partition
  unconstrained n h =
      OfValue-bind (λ c. ⊥) (get_property_str k n "disk") _
        (λ disk.
          OfValue-bind (λ c. ⊥) (get_property_str k n "id") _
            (λ id.
              OfValue-bind (λ c. ⊥) (read_role k n) _
                (λ role.
                  OfValue-bind_of (λ c. ⊥) (Has Constraints.invalid)
                    (read_options k (k.iter_children n) no_options) _
                    (read_options-other (k.iter_children n) no_options h)
                    (λ o e. checked-invalid n disk id role o e))))

  -- A create-partition node that is parsed has a child node for constraints.
  pub parse_create_partition-constrained :
      (n : N) (c : CreatePartition)
      → parse_create_partition k n ≡ ok c
      → any is_constraints (k.iter_children n) ≡ true
  parse_create_partition-constrained n c h =
      elim (Bool-cases (any is_constraints (k.iter_children n))) [
        | inl e ↦ e
        | inr e ↦ absurd (subst (OfValue (λ x. ⊥)) h (unconstrained n e))
      ]
