-- ===== src/Prelude/Runes.antt =====
-- Go's `for _, r := range s` over a string: the runes of its bytes read as UTF-8, in which every
-- byte that begins no well-formed sequence is the rune U+FFFD by itself.
use Prim.Native.Nat.{ℕ, zero, suc, ◌+◌, ◌-◌, ◌*◌, ◌≤◌, ◌<◌}
use mathlib.Core.Path.{◌≡◌, refl}
use mathlib.Core.Logic.{inl, inr}
use mathlib.Core.Bool.{Bool, true, false, ◌&&◌}
use mathlib.Core.List.{List, [], ◌∷◌}
use native.Mathlib.Omega.{arith}
use cf_local.Prelude.Tests.{ltb, ◌==◌, if◌then◌else◌, within, Bool-cases}
use cf_local.Prelude.Lists.{all, any, All, take}
use cf_local.Prelude.Text.{Bytes}

abbrev pub rune_error : ℕ
rune_error = 65533

-- The second byte that may follow the first byte `c`: continuation bytes, less overlong forms,
-- surrogates and numbers above U+10FFFF.
unfoldable second_of : ℕ → ℕ → Bool
second_of c d =
    if c == 224
    then within 160 191 d
    else if c == 237
    then within 128 159 d
    else if c == 240
    then within 144 191 d
    else if c == 244
    then within 128 143 d
    else within 128 191 d

unfoldable decode2 : ℕ → Bytes → ℕ × ℕ
decode2 c (d ∷ s) = if within 128 191 d then ((c - 192) * 64 + (d - 128), 1) else (rune_error, 0)
decode2 c [] = (rune_error, 0)

unfoldable decode3 : ℕ → Bytes → ℕ × ℕ
unfolding second_of
decode3 c (d ∷ e ∷ s) =
    if second_of c d && within 128 191 e
    then ((c - 224) * 4096 + (d - 128) * 64 + (e - 128), 2)
    else (rune_error, 0)
decode3 c _ = (rune_error, 0)

unfoldable decode4 : ℕ → Bytes → ℕ × ℕ
unfolding second_of
decode4 c (d ∷ e ∷ f ∷ s) =
    if second_of c d && within 128 191 e && within 128 191 f
    then ((c - 240) * 262144 + (d - 128) * 4096 + (e - 128) * 64 + (f - 128), 3)
    else (rune_error, 0)
decode4 c _ = (rune_error, 0)

-- The rune at the first byte `c`, and how many bytes behind `c` belong to it.
unfoldable pub decode_rune : ℕ → Bytes → ℕ × ℕ
unfolding decode2 decode3 decode4
decode_rune c s =
    if ltb c 128
    then (c, 0)
    else if within 194 223 c
    then decode2 c s
    else if within 224 239 c
    then decode3 c s
    else if within 240 244 c
    then decode4 c s
    else (rune_error, 0)

-- `skip` counts down the bytes of a sequence that is read.
unfoldable runes_from : ℕ → Bytes → List ℕ
unfolding decode_rune
runes_from skip [] = []
runes_from (suc n) (c ∷ s) = runes_from n s
runes_from zero (c ∷ s) = (decode_rune c s).0 ∷ runes_from (decode_rune c s).1 s

unfoldable pub runes : Bytes → List ℕ
unfolding runes_from
runes s = runes_from 0 s

decode_rune_ascii : (c : ℕ) (s : Bytes) → c < 128 → decode_rune c s ≡ (c, 0)
unfolding decode_rune
decode_rune_ascii c s h = ground arith

decode2-high : (c : ℕ) (s : Bytes) → 194 ≤ c → 128 ≤ (decode2 c s).0
unfolding decode2
decode2-high c [] h = omega arith
decode2-high c (d ∷ s) h = ground arith

decode3-high : (c : ℕ) (s : Bytes) → 224 ≤ c → 128 ≤ (decode3 c s).0
unfolding decode3 second_of
decode3-high c (d ∷ e ∷ s) h = ground arith
decode3-high c [] h = omega arith
decode3-high c (d ∷ []) h = omega arith

decode4-high : (c : ℕ) (s : Bytes) → 240 ≤ c → 128 ≤ (decode4 c s).0
unfolding decode4 second_of
decode4-high c (d ∷ e ∷ f ∷ s) h = ground arith
decode4-high c [] h = omega arith
decode4-high c (d ∷ []) h = omega arith
decode4-high c (d ∷ e ∷ []) h = omega arith

-- A byte above ASCII never stands for an ASCII rune.
decode_rune-high : (c : ℕ) (s : Bytes) → 128 ≤ c → 128 ≤ (decode_rune c s).0
unfolding decode_rune
decode_rune-high c s h = ground (arith, decode2-high c s, decode3-high c s, decode4-high c s)

module _ (p : ℕ → Bool) (high : (c : ℕ) → 128 ≤ c → p c ≡ false) where
  all-runes_from : (s : Bytes) → all p (runes_from 0 s) ≡ all p s
  unfolding runes_from
  all-runes_from [] = refl
  all-runes_from (c ∷ s) = elim (Bool-cases (ltb c 128)) [
    | inl e ↦ rw (decode_rune_ascii c s (ground arith)) (ground (arith, all-runes_from s))
    | inr e ↦
        let far : 128 ≤ c = ground arith in
        ground (arith, high c far, high (decode_rune c s).0 (decode_rune-high c s far))
  ]

  -- A test that only ASCII passes holds of every rune exactly when it holds of every byte.
  pub all-runes : (s : Bytes) → all p (runes s) ≡ all p s
  unfolding runes
  all-runes s = all-runes_from s

-- The bytes that belong to a rune behind its first byte.
abbrev HighTake : ℕ → Bytes → Type 0
HighTake n s = All (λ c. 128 ≤ c) (take n s)

decode2-HighTake : (c : ℕ) (s : Bytes) → HighTake (decode2 c s).1 s
unfolding decode2
decode2-HighTake c [] = tt
decode2-HighTake c (d ∷ s) = elim (Bool-cases (within 128 191 d)) [
  | inl e ↦ rw e (ground arith)
  | inr e ↦ rw e tt
]

second_of-high : (c d : ℕ) → second_of c d ≡ true → 128 ≤ d
unfolding second_of
second_of-high c d h = ground arith

decode3-HighTake : (c : ℕ) (s : Bytes) → HighTake (decode3 c s).1 s
unfolding decode3
decode3-HighTake c [] = tt
decode3-HighTake c (d ∷ []) = tt
decode3-HighTake c (d ∷ e ∷ s) = elim (Bool-cases (second_of c d && within 128 191 e)) [
  | inl h ↦ rw h (ground (arith, second_of-high c d))
  | inr h ↦ rw h tt
]

decode4-HighTake : (c : ℕ) (s : Bytes) → HighTake (decode4 c s).1 s
unfolding decode4
decode4-HighTake c [] = tt
decode4-HighTake c (d ∷ []) = tt
decode4-HighTake c (d ∷ e ∷ []) = tt
decode4-HighTake c (d ∷ e ∷ f ∷ s) =
    elim (Bool-cases (second_of c d && within 128 191 e && within 128 191 f)) [
      | inl h ↦ rw h (ground (arith, second_of-high c d))
      | inr h ↦ rw h tt
    ]

decode_rune-HighTake : (c : ℕ) (s : Bytes) → HighTake (decode_rune c s).1 s
unfolding decode_rune
decode_rune-HighTake c s = elim (Bool-cases (ltb c 128)) [
  | inl h ↦ rw h tt
  | inr h ↦ rw h (elim (Bool-cases (within 194 223 c)) [
    | inl h2 ↦ rw h2 (decode2-HighTake c s)
    | inr h2 ↦ rw h2 (elim (Bool-cases (within 224 239 c)) [
      | inl h3 ↦ rw h3 (decode3-HighTake c s)
      | inr h3 ↦ rw h3 (elim (Bool-cases (within 240 244 c)) [
        | inl h4 ↦ rw h4 (decode4-HighTake c s)
        | inr h4 ↦ rw h4 tt
      ])
    ])
  ])
]

module _ (q : ℕ → Bool) (high : (c : ℕ) → 128 ≤ c → q c ≡ false) where
  any-runes_from : (n : ℕ) (s : Bytes) → HighTake n s → any q (runes_from n s) ≡ any q s
  unfolding runes_from
  any-runes_from n [] h = refl
  any-runes_from (suc n) (c ∷ s) h = rw (high c h.0) (any-runes_from n s h.1)
  any-runes_from zero (c ∷ s) h =
      let rest = any-runes_from (decode_rune c s).1 s (decode_rune-HighTake c s) in
      elim (Bool-cases (ltb c 128)) [
        | inl e ↦
            rw (decode_rune_ascii c s (ground arith))
              (ground (arith, rw (decode_rune_ascii c s (ground arith)) at rest))
        | inr e ↦
            let far : 128 ≤ c = ground arith in
            ground (arith, high c far, high (decode_rune c s).0 (decode_rune-high c s far))
      ]

  -- A mark that only ASCII bears stands among the runes exactly when it stands among the bytes.
  pub any-runes : (s : Bytes) → any q (runes s) ≡ any q s
  unfolding runes
  any-runes s = any-runes_from 0 s tt
