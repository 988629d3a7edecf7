-- ===== src/Prelude/Exec.antt =====
-- Rust's `Result`, and methods that change a state and may fail. What was written before an error
-- stays written, as it does behind a `&mut` reference, so the state comes back beside an error too.

use mathlib.Core.Path.{◌≡◌, ap}

pub data Result {ℓ} (A E : Type ℓ) : Type ℓ where
  ok : A → Result A E
  err : E → Result A E

-- `Result::map_err`
abbrev pub map_err {ℓ} : {A E E' : Type ℓ} → (E → E') → Result A E → Result A E'
map_err f (ok a) = ok a
map_err f (err e) = err (f e)

abbrev pub Exec {ℓ} : Type ℓ → Type ℓ → Type ℓ → Type ℓ
Exec S E A = S → Result A E × S

module _ {ℓ} {S A E : Type ℓ} where
  abbrev pub pure : A → Exec S E A
  pure a s = (ok a, s)

  abbrev pub raise : E → Exec S E A
  raise e s = (err e, s)

-- The `?` operator: go on with the value, or leave with the error.
abbrev pub proceed {ℓ} : {S A B E : Type ℓ} → Result A E × S → (A → Exec S E B) → Result B E × S
proceed (ok a, s) f = f a s
proceed (err e, s) f = (err e, s)

infixl 5 ◌>>=◌
abbrev pub ◌>>=◌ {ℓ} : {S A B E : Type ℓ} → Exec S E A → (A → Exec S E B) → Exec S E B
◌>>=◌ m f s = proceed (m s) f

-- The run succeeds, and its value and state are such that `P`.
abbrev pub Succeeds : {S A E : Type 0} → (A → S → Type 0) → Result A E × S → Type 0
Succeeds P (ok a, s) = P a s
Succeeds P (err e, s) = ⊥

pub Succeeds-proceed :
    {S A B E : Type 0} (P : A → S → Type 0) (Q : B → S → Type 0) (m : Result A E × S)
    (f : A → Exec S E B)
    → Succeeds P m
    → ((a : A) (s : S) → P a s → Succeeds Q (f a s))
    → Succeeds Q (proceed m f)
Succeeds-proceed P Q (ok a, s) f h k = k a s h
Succeeds-proceed P Q (err e, s) f h k = absurd h

pub Succeeds-weaken :
    {S A E : Type 0} (P Q : A → S → Type 0) (m : Result A E × S)
    → Succeeds P m
    → ((a : A) (s : S) → P a s → Q a s)
    → Succeeds Q m
Succeeds-weaken P Q (ok a, s) h k = k a s h
Succeeds-weaken P Q (err e, s) h k = absurd h

-- The value is known.
pub Succeeds_value :
    {S A E : Type 0} (a : A) (m : Result A E × S) → Succeeds (λ x s. x ≡ a) m → m.0 ≡ ok a
Succeeds_value a (ok x, s) h = ap (λ (y : _). ok y) h
Succeeds_value a (err e, s) h = absurd h

pub value_Succeeds :
    {S A E : Type 0} (a : A) (m : Result A E × S) → m.0 ≡ ok a → Succeeds (λ x s. x ≡ a) m
value_Succeeds a (ok x, s) h = cc
value_Succeeds a (err e, s) h = cc
