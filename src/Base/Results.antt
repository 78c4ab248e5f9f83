-- ===== src/Base/Results.antt =====
-- What a call on a mutable object comes to: a value or an error beside the object's new state,
-- or a panic. What was written before an error stays written.
use mathlib.Core.Path.{◌≡◌, refl}
use mathlib.Core.Logic.{◌⊎◌, inl, inr}
use mathlib.Core.Option.{Option, none, some}

pub data Result {ℓ} (E A : Type ℓ) : Type ℓ where
  ok : A → Result E A
  err : E → Result E A

pub data Outcome {ℓ} (E S A : Type ℓ) : Type ℓ where
  done : A → S → Outcome E S A
  fail : E → S → Outcome E S A
  panic : Outcome E S A

abbrev pub Exec {ℓ} : Type ℓ → Type ℓ → Type ℓ → Type ℓ
Exec E S A = S → Outcome E S A

module _ {ℓ} {E S A B : Type ℓ} where
  abbrev pub continue : Outcome E S A → (A → Exec E S B) → Outcome E S B
  continue (done a s) f = f a s
  continue (fail e s) f = fail e s
  continue panic f = panic

-- The value and the state that a call leaves, if it does not panic.
module _ {ℓ} {E S A : Type ℓ} where
  abbrev pub state_of : Outcome E S A → Option S
  state_of (done a s) = some s
  state_of (fail e s) = some s
  state_of panic = none

  -- The `?` operator on a pure result.
  abbrev pub lift : Result E A → Exec E S A
  lift (ok a) s = done a s
  lift (err e) s = fail e s

-- `?` on pure results, by `do` blocks.
infixl 5 ◌>>=◌ ◌>>◌
abbrev pub ◌>>=◌ {ℓ} : {E A B : Type ℓ} → Result E A → (A → Result E B) → Result E B
ok a >>= f = f a
err e >>= f = err e

abbrev pub ◌>>◌ {ℓ} : {E A B : Type ℓ} → Result E A → Result E B → Result E B
m >> k = m >>= λ _. k

module _ {ℓ} {E A : Type ℓ} where
  -- `Option::ok_or`
  abbrev pub ok_or : Option A → E → Result E A
  ok_or none e = err e
  ok_or (some a) e = ok a

-- `Result::map_err`
abbrev pub map_err {ℓ} : {E F A : Type ℓ} → (E → F) → Result E A → Result F A
map_err f (ok a) = ok a
map_err f (err e) = err (f e)

pub fail≢done {ℓ} :
    {E S A : Type ℓ} {e : E} {a : A} {s t : S} → ◌≡◌ {A = Outcome E S A} (fail e s) (done a t) → ⊥
fail≢done h = cc

pub panic≢done {ℓ} : {E S A : Type ℓ} {a : A} {t : S} → ◌≡◌ {A = Outcome E S A} panic (done a t) → ⊥
panic≢done h = cc

pub ok-inj {ℓ} : {E A : Type ℓ} {a b : A} → ◌≡◌ {A = Result E A} (ok a) (ok b) → a ≡ b
ok-inj h = cc

pub err≢ok {ℓ} : {E A : Type ℓ} {e : E} {a : A} → ◌≡◌ {A = Result E A} (err e) (ok a) → ⊥
err≢ok h = cc

-- To split on a computed result and keep the equation.
pub Result-cases {ℓ} :
    {E A : Type ℓ} (r : Result E A) → ((e : E) × (r ≡ err e)) ⊎ ((a : A) × (r ≡ ok a))
Result-cases (ok a) = inr (a, refl)
Result-cases (err e) = inl (e, refl)

module _ {ℓ} {E S A B : Type ℓ} where
  -- A sequence that succeeds, by its first call and the rest.
  pub continue-done :
      (o : Outcome E S A) (f : A → Exec E S B) (b : B) (s : S)
      → continue o f ≡ done b s
      → (a : A) × (r : S) × (o ≡ done a r) × (f a r ≡ done b s)
  continue-done (done a r) f b s h = (a, r, refl, h)
  continue-done (fail e r) f b s h = absurd (fail≢done h)
  continue-done panic f b s h = absurd (panic≢done h)

module _ {ℓ} {E S A : Type ℓ} where
  pub lift-done : (r : Result E A) (a : A) (s t : S) → lift r s ≡ done a t → (r ≡ ok a) × (s ≡ t)
  lift-done (ok a) b s t h = (cc, cc)
  lift-done (err e) b s t h = absurd (fail≢done h)
