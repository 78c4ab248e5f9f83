-- ===== src/Superblock/Format.antt =====
-- What a superblock's type says of itself (crates/superblock/src/lib.rs, `trait Detection`), with
-- its struct as the list of its fields' sizes, and the bytes it is read from.
use disks_rs.Base.{
  ℕ, zero, suc, ◌+◌, ◌/◌, ◌%◌, String, Bool, true, false, ◌&&◌, ◌==◌, List, [], ◌∷◌, ◌++◌, take,
  drop, Option, none, some, if◌then◌else◌,
}
use disks_rs.Base.Text.{str_eq}

pub record Field : Type 0 where
  pub name : String
  pub bytes : ℕ

abbrev pub field : String → ℕ → Field
field name bytes = record { name = name; bytes = bytes }

-- `size_of` a packed struct.
abbrev pub size_of : List Field → ℕ
size_of [] = 0
size_of (f ∷ fs) = f.bytes + size_of fs

-- `OFFSET`, `MAGIC_OFFSET`, the size of `Magic`, `is_valid_magic` and the struct, whose size is
-- `SIZE`.
pub record Format : Type 0 where
  pub offset : ℕ
  pub magic_offset : ℕ
  pub magic_size : ℕ
  pub is_valid_magic : List ℕ → Bool
  pub fields : List Field

-- Numbers as they are stored, the last and the first byte first.
abbrev pub le_bytes : ℕ → ℕ → List ℕ
le_bytes zero v = []
le_bytes (suc n) v = v % 256 ∷ le_bytes n (v / 256)

abbrev pub be_bytes : ℕ → ℕ → List ℕ
be_bytes zero v = []
be_bytes (suc n) v = be_bytes n (v / 256) ++ v % 256 ∷ []

abbrev pub bytes_eq : List ℕ → List ℕ → Bool
bytes_eq [] [] = true
bytes_eq [] (y ∷ ys) = false
bytes_eq (x ∷ xs) [] = false
bytes_eq (x ∷ xs) (y ∷ ys) = (x == y) && bytes_eq xs ys

-- The offset of the field of a name and its size.
abbrev pub locate : String → List Field → Option (ℕ × ℕ)
locate name [] = none
locate name (f ∷ fs) =
    let rest = locate name fs in
    if str_eq f.name name
    then some (0, f.bytes)
    else elim rest [ none ↦ none | some at ↦ some (f.bytes + at.0, at.1) ]

-- A field of a struct that is read from its bytes.
abbrev pub read_field : String → List Field → List ℕ → Option (List ℕ)
read_field name fields block = elim (locate name fields) [
  | none ↦ none
  | some at ↦ some (take at.1 (drop at.0 block))
]

-- A byte slice: its length and the byte at each index below it.
pub record Bytes : Type 0 where
  pub length : ℕ
  pub byte : ℕ → ℕ

abbrev pub slice : Bytes → ℕ → ℕ → List ℕ
slice b at zero = []
slice b at (suc n) = b.byte at ∷ slice b (at + 1) n
