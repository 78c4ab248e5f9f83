-- ===== src/Provisioning/Document.antt =====
-- Documents of the depth that provisioning files have, and the file
-- crates/provisioning/tests/use_whole_disk.kdl.
use disks_rs.Base.{
  ℕ, ◌-◌, String, Bool, false, Option, none, some, List, [], ◌∷◌, ◌==◌, if◌then◌else◌,
}
use disks_rs.Base.Text.{str_eq}
use disks_rs.Base.Int.{ℤ, pos}
use disks_rs.Kdl.{Kdl}

-- `str::to_lowercase` on the annotations of that file.
abbrev pub lower : String → String
lower s = if str_eq s "GiB" then "gib" else if str_eq s "GUID" then "guid" else s

-- A value with its annotation.
pub data Value : Type 0 where
  text : Option String → String → Value
  number : Option String → ℤ → Value

abbrev pub Entry : Type 0
Entry = Option String × Value

pub record Leaf : Type 0 where
  pub name : String
  pub value : Value

pub record Group : Type 0 where
  pub name : String
  pub entries : List Entry
  pub leaves : List Leaf

pub record Item : Type 0 where
  pub name : String
  pub entries : List Entry
  pub groups : List Group

pub record Definition : Type 0 where
  pub name : String
  pub entries : List Entry
  pub items : List Item

pub data Node : Type 0 where
  leaf : Leaf → Node
  group : Group → Node
  item : Item → Node
  definition : Definition → Node

abbrev pub name_of : Node → String
name_of (leaf n) = n.name
name_of (group n) = n.name
name_of (item n) = n.name
name_of (definition n) = n.name

abbrev pub each_node : {A : Type 0} → (A → Node) → List A → List Node
each_node f [] = []
each_node f (x ∷ xs) = f x ∷ each_node f xs

abbrev pub children_of : Node → List Node
children_of (leaf n) = []
children_of (group n) = each_node leaf n.leaves
children_of (item n) = each_node group n.groups
children_of (definition n) = each_node item n.items

abbrev pub entries_of : Node → List Entry
entries_of (leaf n) = (none, n.value) ∷ []
entries_of (group n) = n.entries
entries_of (item n) = n.entries
entries_of (definition n) = n.entries

abbrev pub at : List Entry → ℕ → Option Entry
at [] i = none
at (e ∷ es) i = let rest = at es (i - 1) in if i == 0 then some e else rest

abbrev pub is_named : String → Entry → Bool
is_named key (none, v) = false
is_named key (some n, v) = str_eq n key

abbrev pub named : List Entry → String → Option Entry
named [] key = none
named (e ∷ es) key = let rest = named es key in if is_named key e then some e else rest

abbrev pub annotation : Value → Option String
annotation (text t s) = t
annotation (number t n) = t

abbrev pub string_of : Value → Option String
string_of (text t s) = some s
string_of (number t n) = none

abbrev pub integer_of : Value → Option ℤ
integer_of (text t s) = none
integer_of (number t n) = some n

abbrev pub documents : Kdl Node Entry Unit
documents = record {
  name = name_of;
  name_text = name_of;
  iter_children = children_of;
  span = λ n. tt;
  entries = entries_of;
  entry_at = λ n i. at (entries_of n) i;
  entry_named = λ n key. named (entries_of n) key;
  ty = λ e. annotation e.1;
  as_string = λ e. string_of e.1;
  as_integer = λ e. integer_of e.1;
  entry_span = λ e. tt;
  is_empty = λ e. false;
  entry_name = λ e. e.0;
  to_lowercase = lower;
}

-- An entry behind a key, a positional text, and a size in GiB.
abbrev pub key : String → String → Entry
key name value = (some name, text none value)

abbrev pub word : String → Entry
word value = (none, text none value)

abbrev pub gib : String → ℕ → Leaf
gib name n = record { name = name; value = number (some "GiB") (pos n) }

abbrev pub constraints : List Leaf → Group
constraints leaves = record { name = "constraints"; entries = []; leaves = leaves }

-- create-partition disk="root_disk" role=.. id=.. with sizes, a type and a filesystem.
abbrev pub creation : String → String → ℕ → ℕ → String → String → String → Item
creation role id least most type fs label = record {
  name = "create-partition";
  entries = key "disk" "root_disk" ∷ key "role" role ∷ key "id" id ∷ [];
  groups =
      constraints (gib "min" least ∷ gib "max" most ∷ [])
      ∷ record { name = "type"; entries = (none, text (some "GUID") type) ∷ []; leaves = [] }
      ∷ record {
        name = "filesystem";
        entries = [];
        leaves =
            record { name = "type"; value = text none fs }
            ∷ record { name = "label"; value = text none label }
            ∷ [];
      }
      ∷ [];
}

abbrev pub use_whole_disk : List Node
use_whole_disk =
    definition (record {
      name = "strategy";
      entries = key "name" "whole_disk" ∷ key "summary" "Wipe and use an entire disk" ∷ [];
      items =
          record {
            name = "find-disk";
            entries = word "root_disk" ∷ [];
            groups = constraints (gib "min" 30 ∷ []) ∷ [];
          }
          ∷ record {
            name = "create-partition-table";
            entries = key "type" "gpt" ∷ key "disk" "root_disk" ∷ [];
            groups = [];
          }
          ∷ creation "boot" "esp" 1 2 "efi-system-partition" "fat32" "ESP"
          ∷ creation "extended-boot" "xbootldr" 2 4 "linux-extended-boot" "fat32" "XBOOTLDR"
          ∷ creation "root" "root" 25 120 "linux-fs" "xfs" "ROOT"
          ∷ [];
    })
    ∷ []
