-- ===== src/Prelude/Quote.antt =====
-- What the program uses of package strconv by way of the verb `%q`: a Go string literal, in which
-- every rune that is no printable one is an escape.
use cf_local.Prelude.Tests.{ltb, leb, ◌==◌, if◌then◌else◌}
use cf_local.Prelude.Text.{Bytes}
use cf_local.Prelude.Runes.{rune_error, decode_rune}
use Prim.Native.Nat.{ℕ, zero, suc, ◌+◌, ◌/◌, ◌%◌}
use mathlib.Core.Bool.{Bool, ◌&&◌, ◌||◌}
use mathlib.Core.List.{[], ◌∷◌, ◌++◌}

-- A rune as UTF-8.
unfoldable pub encode_rune : ℕ → Bytes
encode_rune r =
    if ltb r 128
    then r ∷ []
    else if ltb r 2048
    then (192 + r / 64) ∷ (128 + r % 64) ∷ []
    else if ltb r 65536
    then (224 + r / 4096) ∷ (128 + r / 64 % 64) ∷ (128 + r % 64) ∷ []
    else (240 + r / 262144) ∷ (128 + r / 4096 % 64) ∷ (128 + r / 64 % 64) ∷ (128 + r % 64) ∷ []

abbrev hex_digit : ℕ → ℕ
hex_digit d = if ltb d 10 then 48 + d else 87 + d

-- `\x`, `\u` and `\U` with two, four and eight digits.
unfoldable hex : ℕ → ℕ → Bytes
hex zero r = []
hex (suc n) r = hex n (r / 16) ++ hex_digit (r % 16) ∷ []

-- The letter behind the backslash of the control characters that have one.
unfoldable control_letter : ℕ → ℕ
control_letter r =
    if r == 7
    then b'a'
    else if r == 8
    then b'b'
    else if r == 12
    then b'f'
    else if r == 10
    then b'n'
    else if r == 13
    then b'r'
    else if r == 9
    then b't'
    else if r == 11
    then b'v'
    else 0

module _ (printable : ℕ → Bool) where
  -- strconv.IsPrint: its tables for the runes behind ASCII are the parameter.
  unfoldable is_print : ℕ → Bool
  is_print r = if ltb r 127 then leb 32 r else printable r

  unfoldable quote_rune : ℕ → Bytes
  unfolding encode_rune hex control_letter is_print
  quote_rune r =
      if r == 34 || r == 92
      then 92 ∷ r ∷ []
      else if is_print r
      then encode_rune r
      else if ltb 0 (control_letter r)
      then 92 ∷ control_letter r ∷ []
      else if ltb r 32 || r == 127
      then 92 ∷ b'x' ∷ hex 2 r
      else if ltb r 65536
      then 92 ∷ b'u' ∷ hex 4 r
      else 92 ∷ b'U' ∷ hex 8 r

  -- One rune, or a byte of none: the decoder gives such a byte alone as U+FFFD.
  unfoldable quote_step : ℕ → ℕ × ℕ → Bytes
  unfolding quote_rune hex
  quote_step c (r, behind) =
      if leb 128 c && r == rune_error && behind == 0 then 92 ∷ b'x' ∷ hex 2 c else quote_rune r

  unfoldable quote_from : ℕ → Bytes → Bytes
  unfolding quote_step
  quote_from skip [] = []
  quote_from (suc n) (c ∷ s) = quote_from n s
  quote_from zero (c ∷ s) = quote_step c (decode_rune c s) ++ quote_from (decode_rune c s).1 s

  unfoldable pub quote : Bytes → Bytes
  unfolding quote_from
  quote s = 34 ∷ quote_from 0 s ++ 34 ∷ []
