-- ===== src/Prelude/Format.antt =====
-- What the program uses of package fmt and strings: decimal numbers and `strings.Join`.
use cf_local.Prelude.Tests.{ltb, Bool-cases, within}
use cf_local.Prelude.Lists.{all}
use cf_local.Prelude.Text.{Bytes}
use cf_local.Prelude.Int.{ℤ, pos, negsuc}
use Prim.Native.Nat.{ℕ, zero, suc, ◌+◌, ◌/◌, ◌%◌}
use mathlib.Core.Path.{◌≡◌, refl}
use mathlib.Core.Bool.{Bool, true, false, ◌&&◌}
use mathlib.Core.Logic.{inl, inr}
use mathlib.Core.List.{List, [], ◌∷◌, ◌++◌}
use native.Mathlib.Omega.{arith}

-- On fuel: every digit shortens the number, so as much fuel as the number is enough.
unfoldable digits_of : ℕ → ℕ → Bytes
digits_of zero n = []
digits_of (suc fuel) n = elim (ltb n 10) [
  | true ↦ (b'0' + n) ∷ []
  | false ↦ digits_of fuel (n / 10) ++ (b'0' + n % 10) ∷ []
]

-- `%d`
unfoldable pub decimal : ℕ → Bytes
unfolding digits_of
decimal n = digits_of (n + 1) n

unfoldable pub decimal_int : ℤ → Bytes
decimal_int (pos n) = decimal n
decimal_int (negsuc n) = b'-' ∷ decimal (n + 1)

-- `strings.Join(items, sep)`
unfoldable pub join : Bytes → List Bytes → Bytes
join sep [] = []
join sep (x ∷ []) = x
join sep (x ∷ y ∷ xs) = x ++ sep ++ join sep (y ∷ xs)

abbrev pub is_digit : ℕ → Bool
is_digit c = within b'0' b'9' c

all-append : (p : ℕ → Bool) (s t : Bytes) → all p (s ++ t) ≡ (all p s && all p t)
all-append p [] t = refl
all-append p (c ∷ s) t = ground (arith, all-append p s t)

digits_of-all : (fuel n : ℕ) → all is_digit (digits_of fuel n) ≡ true
unfolding digits_of
digits_of-all zero n = refl
digits_of-all (suc fuel) n = elim (Bool-cases (ltb n 10)) [
  | inl e ↦ rw (e, digits_of) (ground arith)
  | inr e ↦
      rw (e, digits_of)
        (ground (
          arith,
          all-append is_digit (digits_of fuel (n / 10)) ((b'0' + n % 10) ∷ []),
          digits_of-all fuel (n / 10),
        ))
]

-- A decimal number is of digits.
pub decimal-all : (n : ℕ) → all is_digit (decimal n) ≡ true
unfolding decimal
decimal-all n = digits_of-all (n + 1) n
