-- ===== src/Provisioning/Files.antt =====
-- Which files the parser accepts: crates/provisioning/src/lib.rs, `Parser::new`.
use disks_rs.Base.{
  ◌≡◌, ◌≢◌, ◌↔◌, refl, ap, ◌∙◌, sym, inl, inr, List, [], ◌∷◌, ◌++◌, Result, ok, err, Bool-cases,
}
use disks_rs.Base.Text.{str_eq}
use disks_rs.Types.{Error}
use disks_rs.Kdl.{Kdl}
use disks_rs.Provisioning.Parser.{
  StrategyDefinition, each, unless_errors, parse_strategy, parse_node, collect, parse_nodes, new,
}

unless_errors-nonempty : {X A : Type 0} (es : List X) (a : A) → unless_errors es a ≢ err []
unless_errors-nonempty [] a h = cc
unless_errors-nonempty (e ∷ es) a h = cc

abbrev one_error : {X A : Type 0} → X → Result (List X) A
one_error e = err (e ∷ [])

one_error-nonempty : {X A : Type 0} (e : X) → one_error {A = A} e ≢ err []
one_error-nonempty e h = cc

unless_errors-ok :
    {X A : Type 0} (es : List X) (a b : A) → unless_errors es a ≡ ok b → (es ≡ []) × (a ≡ b)
unless_errors-ok [] a b h = (refl, cc)
unless_errors-ok (e ∷ es) a b h = cc

append-nil_left : {X : Type 0} (xs ys : List X) → xs ++ ys ≡ [] → (xs ≡ []) × (ys ≡ [])
append-nil_left [] ys h = (refl, h)
append-nil_left (x ∷ xs) ys h = cc

module _ {N E S : Type 0} (k : Kdl N E S) where
  -- A node that is refused is refused with an error.
  parse_node-nonempty : (n : N) → parse_node k n ≢ err []
  unfolding parse_strategy
  parse_node-nonempty n h = elim (Bool-cases (str_eq (k.name n) "strategy")) [
    | inl e ↦ unless_errors-nonempty _ _ (rw (e, parse_node) at h)
    | inr e ↦ one_error-nonempty _ (rw (e, parse_node) at h)
  ]

  -- The first of the nodes, if there are no errors at all.
  collect-accepted :
      (r : Result (List (Error S)) StrategyDefinition)
      (rest : List StrategyDefinition × List (Error S))
      → r ≢ err []
      → (collect k r rest).1 ≡ []
      → (s : StrategyDefinition) × (r ≡ ok s) × ((collect k r rest).0 ≡ s ∷ rest.0) × (rest.1 ≡ [])
  collect-accepted (ok s) rest n h = (s, refl, refl, h)
  collect-accepted (err es) rest n h = absurd (n (ap err (append-nil_left es rest.1 h).0))

  parse_nodes-accepted :
      (ns : List N)
      → (parse_nodes k ns).1 ≡ []
      → each (parse_node k) ns ≡ each ok (parse_nodes k ns).0
  parse_nodes-accepted [] h = refl
  parse_nodes-accepted (n ∷ ns) h =
      let (s, e, f, g) =
        collect-accepted (parse_node k n) (parse_nodes k ns) (parse_node-nonempty n) h in
      ap (λ r. r ∷ each (parse_node k) ns) e
      ∙ ap (λ l. ok s ∷ l) (parse_nodes-accepted ns g)
      ∙ ap (each ok) (sym f)

  parse_nodes-each :
      (ns : List N) (ss : List StrategyDefinition)
      → each (parse_node k) ns ≡ each ok ss
      → parse_nodes k ns ≡ (ss, [])
  parse_nodes-each [] [] h = refl
  parse_nodes-each [] (s ∷ ss) h = absurd cc
  parse_nodes-each (n ∷ ns) [] h = absurd cc
  parse_nodes-each (n ∷ ns) (s ∷ ss) h =
      let e : parse_node k n ≡ ok s = cc in
      let t : each (parse_node k) ns ≡ each ok ss = cc in
      ap (λ r. collect k r (parse_nodes k ns)) e
      ∙ ap (λ (p : List StrategyDefinition × List (Error S)). (s ∷ p.0, p.1))
          (parse_nodes-each ns ss t)

  -- A document is accepted with given strategies exactly if each of its nodes is a strategy node that
  -- is parsed without an error, to the strategy in its place.
  pub new_iff :
      (ns : List N) (ss : List StrategyDefinition)
      → (new k (ok ns) ≡ ok ss) ↔ (each (parse_node k) ns ≡ each ok ss)
  unfolding new
  new_iff ns ss = (
    λ h.
        let (e, f) = unless_errors-ok (parse_nodes k ns).1 (parse_nodes k ns).0 ss h in
        parse_nodes-accepted ns e ∙ ap (each ok) f,
    λ h.
        ap (λ (p : List StrategyDefinition × List (Error S)). unless_errors p.1 p.0)
          (parse_nodes-each ns ss h),
  )
