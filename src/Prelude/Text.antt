-- ===== src/Prelude/Text.antt =====
-- Go strings and byte slices: lists of numbers below 256. Text literals are ASCII here, so their
-- code points are their bytes.
use Prim.Native.Nat.{ℕ}
use Prim.Native.Char.{code}
use Prim.Native.String.{String}
use mathlib.Core.Path.{◌≡◌, refl}
use mathlib.Core.Logic.{◌↔◌, ◌≢◌}
use mathlib.Core.Bool.{Bool, true, false, ◌&&◌}
use mathlib.Core.List.{List, [], ◌∷◌, ◌++◌}
use native.Mathlib.Omega.{arith}
use cf_local.Prelude.Tests.{◌==◌, ltb, if◌then◌else◌}

abbrev pub Bytes : Type 0
Bytes = List ℕ

abbrev pub codes : String → Bytes
codes String.[] = []
codes (String.◌∷◌ c s) = code c ∷ codes s

-- `a == b` on Go strings.
unfoldable pub equal : Bytes → Bytes → Bool
equal [] [] = true
equal (c ∷ s) (d ∷ t) = let rest = equal s t in c == d && rest
equal _ _ = false

-- The test is right.
pub equal_iff : (s t : Bytes) → (equal s t ≡ true) ↔ (s ≡ t)
unfolding equal
equal_iff [] [] = ground arith
equal_iff [] (d ∷ t) = ground arith
equal_iff (c ∷ s) [] = ground arith
equal_iff (c ∷ s) (d ∷ t) = ground (arith, equal_iff s t)

pub equal_refl : (a : Bytes) → equal a a ≡ true
equal_refl a = (equal_iff a a).1 refl

pub equal-ne : (a b : Bytes) → a ≢ b → equal a b ≡ false
equal-ne a b h = ground (arith, equal_iff a b)

-- `a < b` on Go strings: lexicographic by byte.
unfoldable pub less : Bytes → Bytes → Bool
less [] [] = false
less [] (y ∷ ys) = true
less (x ∷ xs) [] = false
less (x ∷ xs) (y ∷ ys) = let rest = less xs ys in if x == y then rest else ltb x y

-- `strings.HasPrefix s p`, the prefix first.
unfoldable pub has_prefix : Bytes → Bytes → Bool
has_prefix [] s = true
has_prefix (x ∷ p) [] = false
has_prefix (x ∷ p) (y ∷ s) = x == y && has_prefix p s

-- A string has the prefix exactly when it is the prefix with something behind it.
pub has_prefix→append : (p s : Bytes) → has_prefix p s ≡ true → (rest : Bytes) × (s ≡ p ++ rest)
unfolding has_prefix
has_prefix→append [] s h = (s, refl)
has_prefix→append (x ∷ p) [] h = cc
has_prefix→append (x ∷ p) (y ∷ s) h =
    let (rest, e) = has_prefix→append p s (ground arith) in (rest, ground arith)

pub append→has_prefix : (p rest : Bytes) → has_prefix p (p ++ rest) ≡ true
unfolding has_prefix
append→has_prefix [] rest = refl
append→has_prefix (x ∷ p) rest = ground (arith, append→has_prefix p rest)
