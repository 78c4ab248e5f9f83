-- ===== src/Kdl/Examples.antt =====
-- The theorems on KDL values at concrete nodes. A node has a name and a
-- value or one child, and is its own entry.
use disks_rs.Base.{String, false, Option, none, some, List, [], ◌∷◌, if◌then◌else◌}
use disks_rs.Base.Text.{str_eq}
use disks_rs.Base.Int.{ℤ}
use disks_rs.Kdl.{Kdl}

pub data Node : Type 0 where
  leaf : String → Option String → ℤ → Node
  text : String → String → Node
  parent : String → Node → Node

abbrev pub name_of : Node → String
name_of (leaf name ty value) = name
name_of (text name value) = name
name_of (parent name child) = name

abbrev pub children_of : Node → List Node
children_of (parent name child) = child ∷ []
children_of _ = []

abbrev pub type_of : Node → Option String
type_of (leaf name ty value) = ty
type_of _ = none

abbrev pub integer_of : Node → Option ℤ
integer_of (leaf name ty value) = some value
integer_of _ = none

abbrev pub string_of : Node → Option String
string_of (text name value) = some value
string_of _ = none

abbrev pub nodes : Kdl Node Node Unit
nodes = record {
  name = name_of;
  name_text = name_of;
  iter_children = children_of;
  span = λ n. tt;
  entries = λ n. n ∷ [];
  entry_at = λ n i. some n;
  entry_named = λ n key. if str_eq key "role" then none else some (text key key);
  ty = type_of;
  as_string = string_of;
  as_integer = integer_of;
  entry_span = λ n. tt;
  is_empty = λ n. false;
  entry_name = λ n. none;
  to_lowercase = λ s. s;
}
