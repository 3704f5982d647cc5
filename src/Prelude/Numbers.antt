-- ===== src/Prelude/Numbers.antt =====
-- What the program uses of package strconv for numbers, and `strings.TrimSpace`.
use Prim.Native.Nat.{ℕ, zero, suc, ◌+◌, ◌-◌, ◌*◌, ◌^◌}
use mathlib.Core.Bool.{Bool, true, false, ◌||◌}
use mathlib.Core.Option.{Option, none, some}
use mathlib.Core.List.{List, [], ◌∷◌, ◌++◌}
use cf_local.Prelude.Tests.{ltb, ◌==◌, if◌then◌else◌, within}
use cf_local.Prelude.Lists.{take}
use cf_local.Prelude.Text.{Bytes}
use cf_local.Prelude.Runes.{decode_rune}
use cf_local.Prelude.Int.{ℤ, pos, negsuc}

-- `strconv.Atoi` on a 64-bit machine.
unfoldable pub digits_value : ℕ → Bytes → Option ℕ
digits_value n [] = some n
digits_value n (c ∷ rest) =
    let later = digits_value (n * 10 + (c - b'0')) rest in
    if within b'0' b'9' c then later else none

unfoldable pub unsigned_value : Bytes → Option ℕ
unfolding digits_value
unsigned_value [] = none
unsigned_value (c ∷ rest) = digits_value 0 (c ∷ rest)

unfoldable pub positive : Option ℕ → Option ℤ
positive none = none
positive (some n) = if ltb n (2 ^ 63) then some (pos n) else none

unfoldable pub negative : Option ℕ → Option ℤ
negative none = none
negative (some zero) = some (pos 0)
negative (some (suc n)) = if ltb n (2 ^ 63) then some (negsuc n) else none

unfoldable pub atoi : Bytes → Option ℤ
unfolding unsigned_value positive negative
atoi [] = none
atoi (c ∷ rest) =
    if c == b'-'
    then negative (unsigned_value rest)
    else if c == b'+'
    then positive (unsigned_value rest)
    else positive (unsigned_value (c ∷ rest))

-- unicode.IsSpace
unfoldable is_space : ℕ → Bool
is_space r =
    within 9 13 r
    || r == 32
    || r == 133
    || r == 160
    || r == 5760
    || within 8192 8202 r
    || r == 8232
    || r == 8233
    || r == 8239
    || r == 8287
    || r == 12288

-- The runes of a string, each with its bytes.
unfoldable pieces_from : ℕ → Bytes → List (ℕ × Bytes)
pieces_from skip [] = []
pieces_from (suc n) (c ∷ s) = pieces_from n s
pieces_from zero (c ∷ s) =
    ((decode_rune c s).0, c ∷ take (decode_rune c s).1 s) ∷ pieces_from (decode_rune c s).1 s

unfoldable skip_space : List (ℕ × Bytes) → List (ℕ × Bytes)
unfolding is_space
skip_space [] = []
skip_space ((r, s) ∷ ps) = elim (is_space r) [ true ↦ skip_space ps | false ↦ (r, s) ∷ ps ]

-- The bytes up to the last rune that is no space.
unfoldable until_space : List (ℕ × Bytes) → Bytes
unfolding is_space
until_space [] = []
until_space ((r, s) ∷ ps) = elim (until_space ps) [
  | [] ↦ if is_space r then [] else s
  | c ∷ t ↦ s ++ c ∷ t
]

-- `strings.TrimSpace`
unfoldable pub trim_space : Bytes → Bytes
unfolding pieces_from skip_space until_space
trim_space s = until_space (skip_space (pieces_from 0 s))
