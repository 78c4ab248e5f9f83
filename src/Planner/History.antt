-- ===== src/Planner/History.antt =====
-- The layout after one more change: crates/partitioning/src/planner.rs, `current_layout`.
use disks_rs.Base.{
  ℕ, ◌≡◌, refl, ap, sym, inl, inr, Option, some, List, [], ◌∷◌, ◌++◌, arith, ◌∙◌, zero, suc, All,
  All-append, All-append_left, All-append_right, Pairwise, Option-cases, some-inj,
}
use mathlib.Core.List.{append_assoc}
use disks_rs.Planner.{
  Change, add_partition, delete_partition, Region, remove?, remove_all, sort_descending,
  insert_descending, deleted_indices, added_regions, layout_of, drop_last,
}
use disks_rs.Planner.Layout.{
  sort-IsDescending, sort-append, insert-Narrows, All-remove?, remove_all-cons,
}
use disks_rs.Planner.Adding.{Apart}

module _ {A : Type 0} where
  abbrev pub IsDisjoint : List (Region A) → Type 0
  IsDisjoint l = Pairwise Apart l

  -- What `added_regions` makes of an addition.
  abbrev pub region_of : ℕ → ℕ → ℕ → Option A → Region A
  region_of s e i a = record { start = s; end = e; partition_id = some i; attributes = a }

  pub drop_last-append : (cs : List (Change A)) (c : Change A) → drop_last (cs ++ c ∷ []) ≡ cs
  drop_last-append [] c = refl
  drop_last-append (d ∷ []) c = refl
  drop_last-append (d ∷ e ∷ cs) c = ap (λ l. d ∷ l) (drop_last-append (e ∷ cs) c)

  deleted-append_delete :
      (cs : List (Change A)) (i n : ℕ)
      → deleted_indices (cs ++ delete_partition i n ∷ []) ≡ deleted_indices cs ++ i ∷ []
  deleted-append_delete [] i n = refl
  deleted-append_delete (add_partition s e j a ∷ cs) i n = deleted-append_delete cs i n
  deleted-append_delete (delete_partition j m ∷ cs) i n =
      ap (λ l. j ∷ l) (deleted-append_delete cs i n)

  added-append_delete :
      (cs : List (Change A)) (i n : ℕ)
      → added_regions (cs ++ delete_partition i n ∷ []) ≡ added_regions cs
  added-append_delete [] i n = refl
  added-append_delete (add_partition s e j a ∷ cs) i n =
      ap (λ l. region_of s e j a ∷ l) (added-append_delete cs i n)
  added-append_delete (delete_partition j m ∷ cs) i n = added-append_delete cs i n

  deleted-append_add :
      (cs : List (Change A)) (s e i : ℕ) (a : Option A)
      → deleted_indices (cs ++ add_partition s e i a ∷ []) ≡ deleted_indices cs
  deleted-append_add [] s e i a = refl
  deleted-append_add (add_partition s' e' j a' ∷ cs) s e i a = deleted-append_add cs s e i a
  deleted-append_add (delete_partition j m ∷ cs) s e i a =
      ap (λ l. j ∷ l) (deleted-append_add cs s e i a)

  added-append_add :
      (cs : List (Change A)) (s e i : ℕ) (a : Option A)
      → added_regions (cs ++ add_partition s e i a ∷ [])
        ≡ added_regions cs ++ region_of s e i a ∷ []
  added-append_add [] s e i a = refl
  added-append_add (add_partition s' e' j a' ∷ cs) s e i a =
      ap (λ l. region_of s' e' j a' ∷ l) (added-append_add cs s e i a)
  added-append_add (delete_partition j m ∷ cs) s e i a = added-append_add cs s e i a

  layout-parts :
      (o : List (Region A)) (cs : List (Change A)) {l : List (Region A)}
      → layout_of o cs ≡ some l
      → (k : List (Region A)) × (remove_all (sort_descending [] (deleted_indices cs)) o ≡ some k)
        × (l ≡ k ++ added_regions cs)
  unfolding layout_of
  layout-parts o cs h =
      elim (Option-cases (remove_all (sort_descending [] (deleted_indices cs)) o)) [
        | inl e ↦ ground arith
        | inr (k, e) ↦ (k, e, ground arith)
      ]

  parts-layout :
      (o : List (Region A)) (cs : List (Change A)) {k : List (Region A)}
      → remove_all (sort_descending [] (deleted_indices cs)) o ≡ some k
      → layout_of o cs ≡ some (k ++ added_regions cs)
  unfolding layout_of
  parts-layout o cs e = ground arith

  -- A planned partition stands at the end of the layout.
  pub layout-append_add :
      (o : List (Region A)) (cs : List (Change A)) (s e i : ℕ) (a : Option A) (l : List (Region A))
      → layout_of o cs ≡ some l
      → layout_of o (cs ++ add_partition s e i a ∷ []) ≡ some (l ++ region_of s e i a ∷ [])
  layout-append_add o cs s e i a l h =
      let (k, f, g) = layout-parts o cs h in
      let f' : remove_all (sort_descending [] (deleted_indices (cs ++ add_partition s e i a ∷ [])))
            o
          ≡ some k =
        rw deleted-append_add f in
      parts-layout o (cs ++ add_partition s e i a ∷ []) f'
      ∙ ap some (
          rw (added-append_add, g)
            (sym (append_assoc k (added_regions cs) (region_of s e i a ∷ []))))

  Pairwise-append_parts :
      (R : Region A → Region A → Type 0) (xs ys : List (Region A))
      → Pairwise R (xs ++ ys)
      → Pairwise R xs × Pairwise R ys × All (λ x. All (R x) ys) xs
  Pairwise-append_parts R [] ys h = (tt, h, tt)
  Pairwise-append_parts R (x ∷ xs) ys h =
      let (a, b, c) = Pairwise-append_parts R xs ys h.1 in
      ((All-append_left (R x) xs ys h.0, a), b, (All-append_right (R x) xs ys h.0, c))

  append_parts-Pairwise :
      (R : Region A → Region A → Type 0) (xs ys : List (Region A))
      → Pairwise R xs
      → Pairwise R ys
      → All (λ x. All (R x) ys) xs
      → Pairwise R (xs ++ ys)
  append_parts-Pairwise R [] ys h k c = k
  append_parts-Pairwise R (x ∷ xs) ys h k c =
      (All-append (R x) xs ys h.0 c.0, append_parts-Pairwise R xs ys h.1 k c.1)

  remove?-IsDisjoint :
      (o : List (Region A)) {k : List (Region A)} (i : ℕ)
      → remove? o i ≡ some k
      → IsDisjoint o
      → IsDisjoint k
  remove?-IsDisjoint [] i e h = cc
  remove?-IsDisjoint (r ∷ rs) zero e h = rw (← some-inj e) h.1
  remove?-IsDisjoint (r ∷ rs) (suc i) e h = elim (Option-cases (remove? rs i)) [
    | inl f ↦ ground arith
    | inr (l', f) ↦
        let g : r ∷ l' ≡ _ = some-inj (rw f at e) in
        rw (← g) (All-remove? (Apart r) rs i f h.0, remove?-IsDisjoint rs i f h.1)
  ]

  remove_all-IsDisjoint :
      (is : List ℕ) (o : List (Region A)) {k : List (Region A)}
      → IsDisjoint o
      → remove_all is o ≡ some k
      → IsDisjoint k
  remove_all-IsDisjoint [] o h e = rw (← some-inj e) h
  remove_all-IsDisjoint (i ∷ is) o h e =
      let (m, f, g) = remove_all-cons i is o e in
      remove_all-IsDisjoint is m (remove?-IsDisjoint o i f h) g

  -- A planned deletion leaves a disjoint layout disjoint, also where it was planned before.
  pub layout-append_delete :
      (o : List (Region A)) (cs : List (Change A)) (i n : ℕ) {l : List (Region A)}
      → IsDisjoint o
      → layout_of o (cs ++ delete_partition i n ∷ []) ≡ some l
      → (m : List (Region A)) × (layout_of o cs ≡ some m) × (IsDisjoint m → IsDisjoint l)
  layout-append_delete o cs i n d h =
      let (k, e, g) = layout-parts o (cs ++ delete_partition i n ∷ []) h in
      let is = sort_descending [] (deleted_indices cs) in
      let e' : remove_all (insert_descending i is) o ≡ some k =
        rw (← sort-append [] (deleted_indices cs) i, ← deleted-append_delete cs i n) e in
      let (m, f, narrows) =
        insert-Narrows is i o (sort-IsDescending [] (deleted_indices cs) tt) e' in
      (
        m ++ added_regions cs,
        parts-layout o cs f,
        λ dm.
            let (a, b, c) = Pairwise-append_parts Apart m (added_regions cs) dm in
            rw (g, added-append_delete)
              (append_parts-Pairwise Apart k (added_regions cs)
                (remove_all-IsDisjoint (insert_descending i is) o d e') b
                (narrows (λ x. All (Apart x) (added_regions cs)) c)),
      )
