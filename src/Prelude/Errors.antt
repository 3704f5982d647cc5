-- ===== src/Prelude/Errors.antt =====
-- Go's `(value, error)`: a value or an error, with `do` for `if err != nil { return err }`.
use mathlib.Core.Path.{◌≡◌, refl, sym, subst}
use mathlib.Core.Logic.{◌⊎◌, inl, inr}
use mathlib.Core.Bool.{Bool, true, false}

pub data Result {ℓ κ} (E : Type κ) (A : Type ℓ) : Type (ℓ ⊔ κ) where
  ok : A → Result E A
  err : E → Result E A

infixl 5 ◌>>=◌ ◌>>◌
-- `if err != nil { return err }`, and on with the value.
abbrev pub ◌>>=◌ {κ ν μ} :
    {E : Type μ} {Value : Type κ} {Next : Type ν}
    → Result E Value
    → (Value → Result E Next)
    → Result E Next
err failure >>= next = err failure
ok value >>= next = next value

abbrev pub ◌>>◌ {κ μ} :
    {E : Type μ} {Next : Type κ} → Result E (Unit {0}) → Result E Next → Result E Next
checked >> next = checked >>= λ _. next

-- `if bad { return e }`
abbrev pub refuse_if {μ} : {E : Type μ} → Bool → E → Result E (Unit {0})
refuse_if bad failure = elim bad [ false ↦ ok tt | true ↦ err failure ]

pub Result-cases {ℓ κ} :
    {E : Type κ} {A : Type ℓ} (r : Result E A) → ((a : A) × (r ≡ ok a)) ⊎ ((e : E) × (r ≡ err e))
Result-cases (ok a) = inl (a, refl)
Result-cases (err e) = inr (e, refl)

-- A chain that succeeds had a first value, from which the rest succeeded.
pub >>=-eq-ok {κ ν μ} :
    {E : Type μ} {Value : Type κ} {Next : Type ν} (first : Result E Value)
    (next : Value → Result E Next) {last : Next}
    → (first >>= next) ≡ ok last
    → (value : Value) × (first ≡ ok value) × (next value ≡ ok last)
>>=-eq-ok (err failure) next eq = cc
>>=-eq-ok (ok value) next eq = (value, refl, eq)

pub ok-injective {ℓ κ} :
    {E : Type κ} {A : Type ℓ} {a b : A} → ◌≡◌ {A = Result E A} (ok a) (ok b) → a ≡ b
ok-injective h = cc

-- The result is a value.
abbrev pub Succeeds {ℓ κ} : {E : Type κ} {A : Type ℓ} → Result E A → Type (ℓ ⊔ κ)
Succeeds {E} {A} r = (a : A) × (r ≡ ok a)

pub Succeeds->>= {ℓ κ μ} :
    {E : Type μ} {A : Type ℓ} {B : Type κ} (r : Result E A) (g : A → Result E B) (a : A)
    → r ≡ ok a
    → Succeeds (g a)
    → Succeeds (r >>= g)
Succeeds->>= r g a e s = subst (λ x. Succeeds (x >>= g)) (sym e) s
