-- ===== src/Superblock/Found.antt =====
-- What detection (crates/superblock/src/lib.rs) finds, by the formats' magic numbers alone.
use disks_rs.Base.{
  ℕ, ◌+◌, ◌≤◌, ◌<◌, ◌≡◌, refl, ap, ◌∙◌, sym, arith, Bool, true, false, Option, none, some, List, [],
  ◌∷◌, All, find, inl, inr, Bool-cases, le→leb, gt→leb, Outcome, done, fail,
}
use disks_rs.Superblock.Format.{Format, Bytes, slice, size_of}
use disks_rs.Superblock.Detect.{
  Error, io, unknown_superblock, Kind, Superblock, Cursor, candidates, detect_superblock,
  try_detect, from_bytes, from_reader, preallocated,
}

abbrev at : Bytes → ℕ → Cursor
at b n = record { bytes = b; position = n }

-- The magic number and the block of a format lie within `n` bytes.
abbrev pub Fits : ℕ → Kind × Format → Type 0
Fits n f = (f.1.magic_offset + f.1.magic_size ≤ n) × (f.1.offset + size_of f.1.fields ≤ n)

abbrev pub is_match : Bytes → Kind × Format → Bool
is_match b f = f.1.is_valid_magic (slice b f.1.magic_offset f.1.magic_size)

-- The outcome for the format that was chosen, with the cursor left behind.
abbrev pub chosen : Bytes → Cursor → Option (Kind × Format) → Outcome Error Cursor Superblock
chosen b c none = fail unknown_superblock c
chosen b c (some f) =
    done (record { kind = f.0; block = slice b f.1.offset (size_of f.1.fields) }) c

detect-match :
    (b : Bytes) (n : ℕ) (f : Kind × Format)
    → Fits b.length f
    → is_match b f ≡ true
    → detect_superblock f.1 (at b n)
      ≡ done
          (some (slice b f.1.offset (size_of f.1.fields)))
          (at b (f.1.offset + size_of f.1.fields))
unfolding detect_superblock
detect-match b n f h m = rw (le→leb _ _ h.0, m, le→leb _ _ h.1) refl

detect-mismatch :
    (b : Bytes) (n : ℕ) (f : Kind × Format)
    → Fits b.length f
    → is_match b f ≡ false
    → detect_superblock f.1 (at b n) ≡ done none (at b (f.1.magic_offset + f.1.magic_size))
unfolding detect_superblock
detect-mismatch b n f h m = rw (le→leb _ _ h.0, m) refl

pub find-cons_true :
    {A : Type 0} (p : A → Bool) (x : A) (xs : List A) → p x ≡ true → find p (x ∷ xs) ≡ some x
find-cons_true p x xs e = rw (e, find) refl

pub find-cons_false :
    {A : Type 0} (p : A → Bool) (x : A) (xs : List A) → p x ≡ false → find p (x ∷ xs) ≡ find p xs
find-cons_false p x xs e = rw (e, find) refl

try_detect-first :
    (b : Bytes) (n : ℕ) (fs : List (Kind × Format))
    → All (Fits b.length) fs
    → (c : Cursor) × (try_detect fs (at b n) ≡ chosen b c (find (is_match b) fs))
unfolding try_detect
try_detect-first b n [] h = (at b n, refl)
try_detect-first b n (f ∷ fs) h = elim (Bool-cases (is_match b f)) [
  | inl e ↦ (
    at b (f.1.offset + size_of f.1.fields),
    rw (detect-match b n f h.0 e) (sym (ap (chosen b _) (find-cons_true (is_match b) f fs e))),
  )
  | inr e ↦
      let (c, q) = try_detect-first b (f.1.magic_offset + f.1.magic_size) fs h.1 in
      (
        c,
        rw (detect-mismatch b n f h.0 e)
            (q ∙ sym (ap (chosen b c) (find-cons_false (is_match b) f fs e))),
      )
]

candidates-Fits : (n : ℕ) → preallocated ≤ n → All (Fits n) candidates
candidates-Fits n h = (
  (omega arith, omega arith),
  (
    (omega arith, omega arith),
    (
      (omega arith, omega arith),
      ((omega arith, omega arith), ((omega arith, omega arith), ((omega arith, omega arith), tt))),
    ),
  ),
)

-- On at least 128 KiB of bytes, `from_bytes` neither fails to read nor panics: it returns the block
-- of the first format, in the order ext4, btrfs, F2FS, XFS, LUKS2, FAT, whose magic number stands in
-- the bytes, and the unknown superblock error if there is none.
pub from_bytes-first :
    (b : Bytes)
    → preallocated ≤ b.length
    → (c : Cursor) × (from_bytes b ≡ chosen b c (find (is_match b) candidates))
unfolding from_bytes
from_bytes-first b h = try_detect-first b 0 candidates (candidates-Fits b.length h)

-- `from_reader` on a reader of fewer than 128 KiB fails to read, whatever the reader holds.
pub from_reader-short :
    (r : Bytes) → r.length < preallocated → (c : Cursor) × (from_reader r ≡ fail io c)
unfolding from_reader
from_reader-short r h = (at r r.length, rw (gt→leb _ _ h) refl)

-- `from_reader` on a reader of at least 128 KiB is `from_bytes` on its first 128 KiB.
from_reader-long :
    (r : Bytes)
    → preallocated ≤ r.length
    → from_reader r ≡ from_bytes (record r { length = preallocated })
unfolding from_reader
from_reader-long r h = rw (le→leb _ _ h) refl
