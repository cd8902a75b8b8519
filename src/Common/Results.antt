-- ===== src/Common/Results.antt =====
-- A result or an error of a type that the caller chooses, for Go's pairs of a value and an error.
use mathlib.Core.Path.{◌≡◌, refl}
use mathlib.Core.Bool.{Bool, true, false}
use mathlib.Core.Option.{Option, none, some}
use mathlib.Core.Logic.{◌⊎◌, inl, inr}
use cc_backend.Common.Tests.{if◌then◌else◌}

pub data Result {ℓ} (E : Type 0) (A : Type ℓ) : Type ℓ where
  err : E → Result E A
  ok : A → Result E A

infixl 5 ◌>>=◌
abbrev pub ◌>>=◌ {ℓ κ} :
    {E : Type 0} {A : Type ℓ} {B : Type κ} → Result E A → (A → Result E B) → Result E B
err problem >>= next = err problem
ok value >>= next = next value

abbrev pub or_error {ℓ} : {E : Type 0} {A : Type ℓ} → E → Option A → Result E A
or_error problem none = err problem
or_error problem (some value) = ok value

pub bind-eq-ok {ℓ κ} :
    {E : Type 0} {A : Type ℓ} {B : Type κ} (m : Result E A) (next : A → Result E B) {b : B}
    → (m >>= next) ≡ ok b
    → (a : A) × (m ≡ ok a) × (next a ≡ ok b)
bind-eq-ok (err problem) next h = cc
bind-eq-ok (ok a) next h = (a, refl, h)

pub guard-eq-ok {ℓ} :
    {E : Type 0} {A : Type ℓ} (t : Bool) (problem : E) (m : Result E A) {a : A}
    → (if t then err problem else m) ≡ ok a
    → (t ≡ false) × (m ≡ ok a)
guard-eq-ok true problem m h = cc
guard-eq-ok false problem m h = (refl, h)

pub Result-cases {ℓ} :
    {E : Type 0} {A : Type ℓ} (r : Result E A)
    → ((problem : E) × (r ≡ err problem)) ⊎ ((a : A) × (r ≡ ok a))
Result-cases (err problem) = inl (problem, refl)
Result-cases (ok a) = inr (a, refl)
