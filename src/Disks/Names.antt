-- ===== src/Disks/Names.antt =====
-- The names of devices and of their partitions: crates/disks/src/{scsi,nvme,mmc,virt,loopback,
-- lib}.rs.
use Prim.Native.Char.{Char, code}
use Prim.Native.String.{String, [], ◌∷◌}
use text.Mathlib.TextLemmas.{cons-append}
use disks_rs.Base.{
  ℕ, ◌≡◌, ◌≢◌, refl, ap, ◌∙◌, inl, inr, Bool, true, false, ◌&&◌, ◌||◌, ◌==◌, Bool-cases,
  Option-cases, none, some, some-inj, none≢some, false≢true, arith,
}
use disks_rs.Base.Text.{concat, decimal}
use disks_rs.Base.Parse.{all_chars, strip_prefix, is_ascii_digit}
use disks_rs.Base.Numerals.{decimal-last, all_chars-append}
use disks_rs.Disks.Discovery.{Classes, nvme_pattern, mmc_pattern}

module _ (digit : Char → Bool) where
  -- `\d+$`
  abbrev pub digits : String → Bool
  digits [] = false
  digits (c ∷ s) = digit c && all_chars digit s

  -- `\d+n\d+$`
  abbrev pub after_n : String → Bool
  after_n [] = false
  after_n (c ∷ s) = (code c == b'n') && digits s

  abbrev pub digits_n_digits : String → Bool
  digits_n_digits [] = false
  digits_n_digits (c ∷ s) = digit c && (digits_n_digits s || after_n s)

-- The texts that the two patterns describe.
abbrev pub after : String → (String → Bool) → String → Bool
after prefix p s = elim (strip_prefix prefix s) [ none ↦ false | some rest ↦ p rest ]

-- What the documentation of Unicode's classes and of the regex crate says: the digits 0 to 9 are
-- not alphabetic, "p" is not numeric, and a pattern matches what it describes, with a class `\d`
-- of digits that has neither "n" nor "p".
pub record IsDocumented (c : Classes) : Type 0 where
  pub ascii_digit : (d : Char) → is_ascii_digit d ≡ true → c.is_alphabetic d ≡ false
  pub p_not_numeric : (d : Char) → code d ≡ b'p' → c.is_numeric d ≡ false
  pub digit : Char → Bool
  pub p_no_digit : (d : Char) → code d ≡ b'p' → digit d ≡ false
  pub nvme : (s : String) → c.is_match nvme_pattern s ≡ after "nvme" (digits_n_digits digit) s
  pub mmc : (s : String) → c.is_match mmc_pattern s ≡ after "mmcblk" (digits digit) s

pub strip_prefix-append :
    (p s t r : String) → strip_prefix p s ≡ some r → strip_prefix p (concat s t) ≡ some (concat r t)
strip_prefix-append [] s t r h = ap (λ u. some (concat u t)) (some-inj h)
strip_prefix-append (a ∷ p) [] t r h = absurd (none≢some h)
strip_prefix-append (a ∷ p) (b ∷ s) t r h = elim (Bool-cases (code a == code b)) [
  | inl e ↦
      rw (cons-append b s t)
        (rw (e, strip_prefix) (strip_prefix-append p s t r (rw (e, strip_prefix) at h)))
  | inr e ↦ absurd (none≢some (rw (e, strip_prefix) at h))
]

-- A text has no two prefixes that begin with different characters.
strip_prefix-other :
    (a b : Char) (p q s r : String)
    → code a ≢ code b
    → strip_prefix (a ∷ p) s ≡ some r
    → strip_prefix (b ∷ q) s ≡ none
strip_prefix-other a b p q [] r n h = absurd (none≢some h)
strip_prefix-other a b p q (d ∷ s) r n h = ground arith

-- A test that the characters of a suffix fail.
all_chars-append_false :
    (p : Char → Bool) (s t : String) → all_chars p t ≡ false → all_chars p (concat s t) ≡ false
all_chars-append_false p s t h = all_chars-append p s t ∙ ground arith

-- A form is a prefix with something behind it.
pub after-prefix :
    (prefix : String) (f : String → Bool) (s : String)
    → after prefix f s ≡ true
    → (r : String) × (strip_prefix prefix s ≡ some r) × (f r ≡ true)
after-prefix prefix f s h = elim (Option-cases (strip_prefix prefix s)) [
  | inl e ↦ absurd (false≢true refl (rw (e, after) at h))
  | inr (r, e) ↦ (r, e, rw (e, after) at h)
]

-- Prefixes that begin with different characters.
abbrev pub Differ : String → String → Type 0
Differ [] q = ⊥
Differ (a ∷ p) [] = ⊥
Differ (a ∷ p) (b ∷ q) = code a ≢ code b

-- A text that begins otherwise has not the form.
pub after-other :
    (p q s r : String) (f : String → Bool)
    → strip_prefix p s ≡ some r
    → Differ p q
    → after q f s ≡ false
after-other [] q s r f h n = absurd n
after-other (a ∷ p) [] s r f h n = absurd n
after-other (a ∷ p) (b ∷ q) s r f h n = rw (strip_prefix-other a b p q s r n h, after)

-- A form whose characters pass a test is lost behind a suffix that fails it.
pub after-suffix :
    (prefix : String) (f : String → Bool) (g : Char → Bool) (s t : String)
    → ((r : String) → f r ≡ true → all_chars g r ≡ true)
    → after prefix f s ≡ true
    → all_chars g t ≡ false
    → after prefix f (concat s t) ≡ false
after-suffix prefix f g s t pass h lost =
    let (r, e, k) = after-prefix prefix f s h in
    elim (Bool-cases (f (concat r t))) [
      | inl bad ↦ absurd (false≢true (all_chars-append_false g r t lost) (pass (concat r t) bad))
      | inr good ↦ rw (strip_prefix-append prefix s t r e, after) good
    ]

pub decimal-not_alphabetic :
    (c : Classes) (i : ℕ) → IsDocumented c → all_chars c.is_alphabetic (decimal i) ≡ false
decimal-not_alphabetic c i doc =
    let (s, d, e, k) = decimal-last i in
    ap (all_chars c.is_alphabetic) e
    ∙ all_chars-append_false c.is_alphabetic s (d ∷ []) (ground (arith, doc.ascii_digit d k))

-- A text that begins with a character that fails the test.
pub p-lost :
    (g : Char → Bool) (t : String)
    → ((d : Char) → code d ≡ b'p' → g d ≡ false)
    → all_chars g (concat "p" t) ≡ false
p-lost g t h =
    ap (all_chars g) (cons-append _ [] t) ∙ ap (λ b. b && all_chars g (concat [] t)) (h _ refl)

module _ (digit : Char → Bool) where
  -- The characters of an NVMe name behind its prefix.
  abbrev pub digit_or_n : Char → Bool
  digit_or_n c = digit c || (code c == b'n')

  pub digits-pass : (s : String) → digits digit s ≡ true → all_chars digit s ≡ true
  digits-pass [] h = refl
  digits-pass (c ∷ s) h = h

  all_chars-or_n : (s : String) → all_chars digit s ≡ true → all_chars digit_or_n s ≡ true
  all_chars-or_n [] h = refl
  all_chars-or_n (c ∷ s) h = ground (arith, all_chars-or_n s)

  after_n-pass : (s : String) → after_n digit s ≡ true → all_chars digit_or_n s ≡ true
  after_n-pass [] h = refl
  after_n-pass (c ∷ s) h = ground (arith, all_chars-or_n s, digits-pass s)

  pub digits_n_digits-pass :
      (s : String) → digits_n_digits digit s ≡ true → all_chars digit_or_n s ≡ true
  digits_n_digits-pass [] h = refl
  digits_n_digits-pass (c ∷ s) h = ground (arith, digits_n_digits-pass s, after_n-pass s)
