-- ===== src/Superblock/Magic.antt =====
-- The magic number within the superblock that detection (crates/superblock/src/lib.rs) returns.
use disks_rs.Base.{
  ℕ, zero, suc, ◌+◌, ◌≤◌, ◌≡◌, refl, ap, ◌∙◌, sym, subst, arith, String, Bool, true, Option, none,
  some, List, [], ◌∷◌, All, find, inl, inr, Bool-cases, Option-cases, done, take, drop, some-inj,
}
use disks_rs.Superblock.Format.{Format, Bytes, slice, size_of, read_field}
use disks_rs.Superblock.Ext4
use disks_rs.Superblock.Btrfs
use disks_rs.Superblock.F2fs
use disks_rs.Superblock.Xfs
use disks_rs.Superblock.Luks2
use disks_rs.Superblock.Fat
use disks_rs.Superblock.Detect.{Kind, Superblock, Cursor, candidates, from_bytes, preallocated}
use disks_rs.Superblock.Found.{is_match, chosen, from_bytes-first, find-cons_true, find-cons_false}

abbrev pub format_of : Kind → Format
format_of Kind.ext4 = Ext4.ext4
format_of Kind.btrfs = Btrfs.btrfs
format_of Kind.f2fs = F2fs.f2fs
format_of Kind.xfs = Xfs.xfs
format_of Kind.luks2 = Luks2.luks2
format_of Kind.fat = Fat.fat

-- The name of the struct's field for the magic number, which FAT's struct does not reach.
abbrev pub magic_name : Kind → Option String
magic_name Kind.xfs = some "magicnum"
magic_name Kind.fat = none
magic_name _ = some "magic"

take-slice : (b : Bytes) (at m n : ℕ) → n ≤ m → take n (slice b at m) ≡ slice b at n
take-slice b at m zero h = refl
take-slice b at zero (suc n) h = absurd (omega arith)
take-slice b at (suc m) (suc n) h =
    ap (λ l. b.byte at ∷ l) (take-slice b (at + 1) m n (omega arith))

-- A part of a slice is the slice at that offset.
take-drop-slice :
    (b : Bytes) (at m k n : ℕ) → k + n ≤ m → take n (drop k (slice b at m)) ≡ slice b (at + k) n
take-drop-slice b at m zero n h =
    take-slice b at m n (omega arith) ∙ ap (λ i. slice b i n) (omega arith)
take-drop-slice b at zero (suc k) n h = absurd (omega arith)
take-drop-slice b at (suc m) (suc k) n h =
    take-drop-slice b (at + 1) m k n (omega arith) ∙ ap (λ i. slice b i n) (omega arith)

All-find :
    {A : Type 0} (Q : A → Type 0) (p : A → Bool) (xs : List A) (x : A)
    → All Q xs
    → find p xs ≡ some x
    → Q x × (p x ≡ true)
All-find Q p [] x h e = cc
All-find Q p (y ∷ ys) x h e = elim (Bool-cases (p y)) [
  | inl t ↦
      let y-x = some-inj (sym (find-cons_true p y ys t) ∙ e) in
      (subst Q y-x h.0, ap p (sym y-x) ∙ t)
  | inr f ↦ All-find Q p ys x h.1 (sym (find-cons_false p y ys f) ∙ e)
]

-- The magic number that is tested is a field of the struct.
abbrev Located : Bytes → Kind × Format → Type 0
Located b f =
    (f.1 ≡ format_of f.0)
    × ((name : String)
        → magic_name f.0 ≡ some name
        → read_field name f.1.fields (slice b f.1.offset (size_of f.1.fields))
          ≡ some (slice b f.1.magic_offset f.1.magic_size))

located :
    (b : Bytes) (f : Format) (name other : String) (k : ℕ)
    → some name ≡ some other
    → read_field name f.fields (slice b f.offset (size_of f.fields))
      ≡ some (take f.magic_size (drop k (slice b f.offset (size_of f.fields))))
    → k + f.magic_size ≤ size_of f.fields
    → f.offset + k ≡ f.magic_offset
    → read_field other f.fields (slice b f.offset (size_of f.fields))
      ≡ some (slice b f.magic_offset f.magic_size)
located b f name other k e r le o =
    ap (λ n. read_field n f.fields (slice b f.offset (size_of f.fields))) (sym (some-inj e))
    ∙ r
    ∙ ap some (
        take-drop-slice b f.offset (size_of f.fields) k f.magic_size le
        ∙ ap (λ i. slice b i f.magic_size) o)

candidates-Located : (b : Bytes) → All (Located b) candidates
candidates-Located b = (
  (refl, λ n e. located b Ext4.ext4 "magic" n 56 e refl (omega arith) refl),
  (
    (refl, λ n e. located b Btrfs.btrfs "magic" n 64 e refl (omega arith) refl),
    (
      (refl, λ n e. located b F2fs.f2fs "magic" n 0 e refl (omega arith) refl),
      (
        (refl, λ n e. located b Xfs.xfs "magicnum" n 0 e refl (omega arith) refl),
        (
          (refl, λ n e. located b Luks2.luks2 "magic" n 0 e refl (omega arith) refl),
          ((refl, λ n e. cc), tt),
        ),
      ),
    ),
  ),
)

-- A magic number that the format accepts stands in the block's field for it.
abbrev pub Carries : Superblock → Type 0
Carries s =
    (name : String)
    → magic_name s.kind ≡ some name
    → (m : List ℕ) × (read_field name (format_of s.kind).fields s.block ≡ some m)
      × ((format_of s.kind).is_valid_magic m ≡ true)

matched-Carries :
    (b : Bytes) (f : Kind × Format)
    → Located b f
    → is_match b f ≡ true
    → Carries (record { kind = f.0; block = slice b f.1.offset (size_of f.1.fields) })
matched-Carries b f l m name e = (
  slice b f.1.magic_offset f.1.magic_size,
  subst
      (λ (g : Format).
        read_field name g.fields (slice b f.1.offset (size_of f.1.fields))
        ≡ some (slice b f.1.magic_offset f.1.magic_size))
      l.0 (l.1 name e),
  subst (λ (g : Format). g.is_valid_magic (slice b f.1.magic_offset f.1.magic_size) ≡ true) l.0 m,
)

chosen-some :
    (b : Bytes) (c d : Cursor) (f : Kind × Format) (s : Superblock)
    → chosen b c (some f) ≡ done s d
    → record { kind = f.0; block = slice b f.1.offset (size_of f.1.fields) } ≡ s
chosen-some b c d f s e = cc

chosen-none : (b : Bytes) (c d : Cursor) (s : Superblock) → done s c ≡ chosen b d none → ⊥
chosen-none b c d s e = cc

-- The block that `from_bytes` returns for at least 128 KiB of bytes carries, in the struct's own
-- field for it, a magic number that is valid for the kind returned; FAT, whose struct ends before
-- the magic number, is excepted.
pub from_bytes-Carries :
    (b : Bytes) (s : Superblock) (c : Cursor)
    → preallocated ≤ b.length
    → from_bytes b ≡ done s c
    → Carries s
from_bytes-Carries b s c h r =
    let (d, q) = from_bytes-first b h in
    elim (Option-cases (find (is_match b) candidates)) [
      | inl n ↦ absurd (chosen-none b c d s (sym r ∙ q ∙ ap (chosen b d) n))
      | inr (f, e) ↦
          let (l, m) = All-find (Located b) (is_match b) candidates f (candidates-Located b) e in
          subst Carries (chosen-some b d c f s (sym (ap (chosen b d) e) ∙ sym q ∙ r))
            (matched-Carries b f l m)
    ]
