-- ===== src/Base/Numerals.antt =====
-- The numerals that `format!` writes: they are read back, so no two numbers share one, and the
-- last character is a digit.
use Prim.Native.Char.{Char, code}
use Prim.Native.String.{String, [], ◌∷◌}
use Prim.Native.Nat.{ℕ, zero, suc, ◌+◌, ◌*◌, ◌/◌, ◌%◌, ◌<◌}
use mathlib.Core.Path.{◌≡◌, refl, sym, ap, ◌∙◌}
use mathlib.Core.Logic.{◌≢◌}
use mathlib.Core.Bool.{Bool, true, false, ◌&&◌}
use mathlib.Core.Option.{some}
use native.Mathlib.Omega.{arith}
use text.Mathlib.TextLemmas.{append_assoc, append-nil, cons-append, nil-append, concat-ne-nil}
use disks_rs.Base.Tests.{some-inj}
use disks_rs.Base.Text.{concat, digit, numeral, decimal}
use disks_rs.Base.Parse.{all_chars, is_ascii_digit, parse_digits, parse_unsigned}

one_char : (c : Char) (s : String) → concat (c ∷ []) s ≡ c ∷ s
one_char c s = cons-append c [] s ∙ ap (◌∷◌ c) (nil-append s)

parse_digits-char :
    (limit value : ℕ) (c : Char) (s : String) (d : ℕ)
    → code c ≡ 48 + d
    → d < 10
    → value * 10 + d < limit
    → parse_digits limit value (concat (c ∷ []) s) ≡ parse_digits limit (value * 10 + d) s
unfolding parse_digits
parse_digits-char limit v c s d e h k = rw (one_char c s) (ground arith)

parse_digits-digit :
    (limit value d : ℕ) (s : String)
    → d < 10
    → value * 10 + d < limit
    → parse_digits limit value (concat (digit d) s) ≡ parse_digits limit (value * 10 + d) s
parse_digits-digit limit v zero s h k = parse_digits-char limit v _ s 0 refl h k
parse_digits-digit limit v (suc zero) s h k = parse_digits-char limit v _ s 1 refl h k
parse_digits-digit limit v (suc (suc zero)) s h k = parse_digits-char limit v _ s 2 refl h k
parse_digits-digit limit v (suc (suc (suc zero))) s h k = parse_digits-char limit v _ s 3 refl h k
parse_digits-digit limit v (suc (suc (suc (suc zero)))) s h k =
    parse_digits-char limit v _ s 4 refl h k
parse_digits-digit limit v (suc (suc (suc (suc (suc zero))))) s h k =
    parse_digits-char limit v _ s 5 refl h k
parse_digits-digit limit v (suc (suc (suc (suc (suc (suc zero)))))) s h k =
    parse_digits-char limit v _ s 6 refl h k
parse_digits-digit limit v (suc (suc (suc (suc (suc (suc (suc zero))))))) s h k =
    parse_digits-char limit v _ s 7 refl h k
parse_digits-digit limit v (suc (suc (suc (suc (suc (suc (suc (suc zero)))))))) s h k =
    parse_digits-char limit v _ s 8 refl h k
parse_digits-digit limit v (suc (suc (suc (suc (suc (suc (suc (suc (suc zero))))))))) s h k =
    parse_digits-char limit v _ s 9 refl h k
parse_digits-digit limit v (suc (suc (suc (suc (suc (suc (suc (suc (suc (suc d)))))))))) s h k =
    absurd (omega arith)

-- Reading on behind the numeral of `n`, with the value 0 before it, the value is `n`.
parse_digits-numeral :
    (fuel limit n : ℕ) (s : String)
    → n < fuel
    → n < limit
    → parse_digits limit 0 (concat (numeral fuel n) s) ≡ parse_digits limit n s
unfolding numeral
parse_digits-numeral zero limit n s h k = absurd (omega arith)
parse_digits-numeral (suc fuel) limit n s h k =
    elim (n / 10)
        as (λ q.
          q ≡ n / 10
          → parse_digits limit 0 (
              concat
                (elim q [
                  | zero ↦ digit (n % 10)
                  | suc q ↦ concat (numeral fuel (suc q)) (digit (n % 10))
                ])
                s)
            ≡ parse_digits limit n s) [
              | zero ↦ λ e.
                  parse_digits-digit limit 0 (n % 10) s (omega arith) (omega arith)
                  ∙ ap (λ v. parse_digits limit v s) (omega arith)
              | suc q ↦ λ e.
                  ap (parse_digits limit 0) (append_assoc (numeral fuel (suc q)) (digit (n % 10)) s)
                  ∙ parse_digits-numeral fuel limit (suc q) (concat (digit (n % 10)) s)
                      (omega arith) (omega arith)
                  ∙ parse_digits-digit limit (suc q) (n % 10) s (omega arith) (omega arith)
                  ∙ ap (λ v. parse_digits limit v s) (omega arith)
            ]
      refl

-- The last character of a numeral is a digit.
digit-char : (d : ℕ) → (c : Char) × (digit d ≡ c ∷ []) × (is_ascii_digit c ≡ true)
digit-char zero = (_, refl, refl)
digit-char (suc zero) = (_, refl, refl)
digit-char (suc (suc zero)) = (_, refl, refl)
digit-char (suc (suc (suc zero))) = (_, refl, refl)
digit-char (suc (suc (suc (suc zero)))) = (_, refl, refl)
digit-char (suc (suc (suc (suc (suc zero))))) = (_, refl, refl)
digit-char (suc (suc (suc (suc (suc (suc zero)))))) = (_, refl, refl)
digit-char (suc (suc (suc (suc (suc (suc (suc zero))))))) = (_, refl, refl)
digit-char (suc (suc (suc (suc (suc (suc (suc (suc zero)))))))) = (_, refl, refl)
digit-char (suc (suc (suc (suc (suc (suc (suc (suc (suc d))))))))) = (_, refl, refl)

numeral-last :
    (fuel n : ℕ)
    → (s : String) × (c : Char) × (numeral (suc fuel) n ≡ concat s (c ∷ []))
      × (is_ascii_digit c ≡ true)
unfolding numeral
numeral-last fuel n =
    let (c, e, k) = digit-char (n % 10) in
    elim (n / 10)
      as (λ q.
        (s : String) × (c : Char) × (elim q [
          | zero ↦ digit (n % 10)
          | suc r ↦ concat (numeral fuel (suc r)) (digit (n % 10))
        ]
          ≡ concat s (c ∷ []))
        × (is_ascii_digit c ≡ true)) [
          | zero ↦ ("", c, e ∙ sym (nil-append (c ∷ [])), k)
          | suc q ↦ (numeral fuel (suc q), c, ap (concat (numeral fuel (suc q))) e, k)
        ]

pub decimal-last :
    (n : ℕ)
    → (s : String) × (c : Char) × (decimal n ≡ concat s (c ∷ [])) × (is_ascii_digit c ≡ true)
unfolding decimal
decimal-last n = numeral-last n n

parse_unsigned-digits :
    (limit v : ℕ) (s : String)
    → s ≢ []
    → parse_digits limit 0 s ≡ some v
    → parse_unsigned limit s ≡ some v
unfolding parse_unsigned parse_digits
parse_unsigned-digits limit v [] h e = absurd (h refl)
parse_unsigned-digits limit v (c ∷ []) h e = ground arith
parse_unsigned-digits limit v (c ∷ d ∷ s) h e = ground arith

-- A number below the limit is read back from its numeral.
pub parse_unsigned-decimal : (limit n : ℕ) → n < limit → parse_unsigned limit (decimal n) ≡ some n
unfolding decimal parse_digits
parse_unsigned-decimal limit n h =
    let (s, c, e, k) = decimal-last n in
    parse_unsigned-digits limit n (decimal n) (λ z. concat-ne-nil c s (sym e ∙ z))
      (ap (parse_digits limit 0) (sym (append-nil (decimal n)))
        ∙ parse_digits-numeral (suc n) limit n [] (omega arith) h)

pub decimal_inj : (m n : ℕ) → decimal m ≡ decimal n → m ≡ n
decimal_inj m n e =
    let limit = m + n + 1 in
    some-inj (
      sym (parse_unsigned-decimal limit m (omega arith))
      ∙ ap (parse_unsigned limit) e
      ∙ parse_unsigned-decimal limit n (omega arith))

and_assoc : (a b c : Bool) → (a && (b && c)) ≡ ((a && b) && c)
and_assoc true b c = refl
and_assoc false b c = refl

-- A test of characters on an appended text.
pub all_chars-append :
    (p : Char → Bool) (s t : String) → all_chars p (concat s t) ≡ (all_chars p s && all_chars p t)
all_chars-append p [] t = ap (all_chars p) (nil-append t)
all_chars-append p (c ∷ s) t =
    ap (all_chars p) (cons-append c s t)
    ∙ ap (λ b. p c && b) (all_chars-append p s t)
    ∙ and_assoc (p c) (all_chars p s) (all_chars p t)
