-- ===== src/Provisioning/Parser.antt =====
-- The parser of provisioning files: crates/provisioning/src/lib.rs. All of its errors are fatal:
-- none of the diagnostics has a lower severity.
use disks_rs.Base.{String, Option, none, some, List, [], ◌∷◌, ◌++◌, Result, ok, err, if◌then◌else◌}
use disks_rs.Base.Text.{str_eq}
use disks_rs.Types.{Error, unsupported_node, io}
use disks_rs.Kdl.{Kdl, get_property_str}
use disks_rs.Provisioning.Commands.{Command, parse_command}

pub record StrategyDefinition : Type 0 where
  pub name : String
  pub summary : String
  pub inherits : Option String
  pub commands : List Command

-- The value of a result, or a default beside its error.
abbrev pub value_or : {S A : Type 0} → A → Result (Error S) A → A × List (Error S)
value_or d (ok a) = (a, [])
value_or d (err e) = (d, e ∷ [])

abbrev pub present : {S : Type 0} → Result (Error S) String → Option String × List (Error S)
present (ok a) = (some a, [])
present (err e) = (none, e ∷ [])

-- `partition_map` into the commands and the errors.
abbrev pub partitioned :
    {S : Type 0} → List (Result (Error S) Command) → List Command × List (Error S)
partitioned [] = ([], [])
partitioned (ok c ∷ rs) = let (cs, es) = partitioned rs in (c ∷ cs, es)
partitioned (err e ∷ rs) = let (cs, es) = partitioned rs in (cs, e ∷ es)

abbrev pub each : {A B : Type 0} → (A → B) → List A → List B
each f [] = []
each f (x ∷ xs) = f x ∷ each f xs

abbrev pub unless_errors : {X A : Type 0} → List X → A → Result (List X) A
unless_errors [] a = ok a
unless_errors (e ∷ es) a = err (e ∷ es)

module _ {N E S : Type 0} (k : Kdl N E S) where
  abbrev pub inherits_of : N → Option String × List (Error S)
  inherits_of n = elim (k.entry_named n "inherits") [
    | none ↦ (none, [])
    | some e ↦ present (get_property_str k n "inherits")
  ]

  -- `Parser::parse_strategy`
  unfoldable pub parse_strategy : N → Result (List (Error S)) StrategyDefinition
  unfolding parse_command
  parse_strategy n =
      let (name, e1) = value_or "" (get_property_str k n "name") in
      let (summary, e2) = value_or "" (get_property_str k n "summary") in
      let (inherits, e3) = inherits_of n in
      let (commands, e4) = partitioned (each (parse_command k) (k.iter_children n)) in
      unless_errors (e1 ++ e2 ++ e3 ++ e4)
        (record { name = name; summary = summary; inherits = inherits; commands = commands })

  -- One node of a document.
  abbrev pub parse_node : N → Result (List (Error S)) StrategyDefinition
  parse_node n =
      if str_eq (k.name n) "strategy"
      then parse_strategy n
      else err (unsupported_node (k.span n) (k.name_text n) ∷ [])

  -- The loop of `Parser::new`: the strategies and the errors of all nodes.
  abbrev pub collect :
      Result (List (Error S)) StrategyDefinition
      → List StrategyDefinition × List (Error S)
      → List StrategyDefinition × List (Error S)
  collect (ok s) rest = (s ∷ rest.0, rest.1)
  collect (err es) rest = (rest.0, es ++ rest.1)

  abbrev pub parse_nodes : List N → List StrategyDefinition × List (Error S)
  parse_nodes [] = ([], [])
  parse_nodes (n ∷ ns) = collect (parse_node n) (parse_nodes ns)

  -- `Parser::new`, from the parsed document.
  unfoldable pub new : Result (Error S) (List N) → Result (List (Error S)) (List StrategyDefinition)
  unfolding parse_strategy
  new (err e) = err (e ∷ [])
  new (ok nodes) = let (strategies, errors) = parse_nodes nodes in unless_errors errors strategies

  -- `Parser::new_for_path`, from what reading the file gives and the parser of documents.
  unfoldable pub new_for_path :
      Result String String
      → (String → Result (Error S) (List N))
      → Result (List (Error S)) (List StrategyDefinition)
  unfolding new
  new_for_path (err e) parse_v2 = err (io e ∷ [])
  new_for_path (ok txt) parse_v2 = new (parse_v2 txt)
