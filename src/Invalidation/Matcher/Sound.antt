-- ===== src/Invalidation/Matcher/Sound.antt =====
-- What an accepted text and a refused text look like: the loop of `validateChars` read backwards,
-- by induction on a bound of the length.
use cf_local.Prelude.{
  ℕ, zero, suc, ◌+◌, ◌≤◌, ◌≡◌, refl, sym, ap, ◌∙◌, ◌↔◌, inl, inr, none, some, [], ◌∷◌, ◌++◌, arith,
  Option-cases, length, Bytes,
}
use cf_local.Invalidation.Matcher.{PathError, byte_error, scan, validate_chars}
use cf_local.Invalidation.Matcher.WellFormed.{
  WellFormed, done, plain, escape, Round, one, three, Round-of_none, IsPlain, IsEscape, scan_plain,
  scan_escape, scan-WellFormed,
}

scan-byte_error : (i c : ℕ) (rest : Bytes) → scan 0 i (c ∷ rest) ≡ none → byte_error i c rest ≡ none
unfolding scan
scan-byte_error i c rest h = ground arith

module _ (n : ℕ) (ih : (i : ℕ) (s : Bytes) → length s ≤ n → scan 0 i s ≡ none → WellFormed s) where
  WellFormed-Round :
      (i c : ℕ) (rest : Bytes)
      → length rest ≤ n
      → scan 0 i (c ∷ rest) ≡ none
      → Round c rest
      → WellFormed (c ∷ rest)
  WellFormed-Round i c rest b h (one p) =
      plain p (ih (i + 1) rest b (sym (scan_plain i c rest p) ∙ h))
  WellFormed-Round i c _ b h (three {h1} {h2} {rest} e q) =
      let h' = rw e at h in
      escape e q (ih (i + 1 + 1 + 1) rest (omega arith) (sym (scan_escape i h1 h2 rest q) ∙ h'))

scan-none : (n i : ℕ) (s : Bytes) → length s ≤ n → scan 0 i s ≡ none → WellFormed s
scan-none n i [] b h = done
scan-none zero i (c ∷ rest) b h = absurd (omega arith)
scan-none (suc n) i (c ∷ rest) b h =
    WellFormed-Round n (scan-none n) i c rest (omega arith) h
      (Round-of_none i c rest (scan-byte_error i c rest h))

-- `validateChars` accepts exactly the texts of the grammar of plain bytes and of escapes. Control
-- characters are plain bytes.
pub validate_chars_iff : (s : Bytes) → (validate_chars s ≡ none) ↔ WellFormed s
unfolding validate_chars
validate_chars_iff s = (scan-none (length s) 0 s (omega arith), scan-WellFormed 0)

-- `s` is a well-formed beginning and then a byte at which the round reports `e`, at its offset.
pub record FailsAt (i : ℕ) (s : Bytes) (e : PathError) : Type 0 where
  pub read : Bytes
  pub byte : ℕ
  pub unread : Bytes
  pub splits : s ≡ read ++ byte ∷ unread
  pub clean : WellFormed read
  pub reports : byte_error (i + length read) byte unread ≡ some e

FailsAt-here :
    (i c : ℕ) (rest : Bytes) (e : PathError) → byte_error i c rest ≡ some e → FailsAt i (c ∷ rest) e
FailsAt-here i c rest e h = record {
  read = [];
  byte = c;
  unread = rest;
  splits = refl;
  clean = done;
  reports = let z : i + 0 ≡ i = omega arith in rw z h;
}

FailsAt-plain :
    (i c : ℕ) (rest : Bytes) (e : PathError)
    → IsPlain c
    → FailsAt (i + 1) rest e
    → FailsAt i (c ∷ rest) e
FailsAt-plain i c rest e p f = record {
  read = c ∷ f.read;
  byte = f.byte;
  unread = f.unread;
  splits = ap (◌∷◌ c) f.splits;
  clean = plain p f.clean;
  reports = let z : i + suc (length f.read) ≡ i + 1 + length f.read = omega arith in rw z f.reports;
}

FailsAt-escape :
    (i c h1 h2 : ℕ) (rest : Bytes) (e : PathError)
    → c ≡ b'%'
    → IsEscape h1 h2
    → FailsAt (i + 1 + 1 + 1) rest e
    → FailsAt i (c ∷ h1 ∷ h2 ∷ rest) e
FailsAt-escape i c h1 h2 rest e p q f = record {
  read = c ∷ h1 ∷ h2 ∷ f.read;
  byte = f.byte;
  unread = f.unread;
  splits = ap (λ (t : Bytes). c ∷ h1 ∷ h2 ∷ t) f.splits;
  clean = escape p q f.clean;
  reports =
      let z : i + suc (suc (suc (length f.read))) ≡ i + 1 + 1 + 1 + length f.read = omega arith in
      rw z f.reports;
}

module _ (n : ℕ) (e : PathError)
    (ih : (i : ℕ) (s : Bytes) → length s ≤ n → scan 0 i s ≡ some e → FailsAt i s e) where
  FailsAt-Round :
      (i c : ℕ) (rest : Bytes)
      → length rest ≤ n
      → scan 0 i (c ∷ rest) ≡ some e
      → Round c rest
      → FailsAt i (c ∷ rest) e
  FailsAt-Round i c rest b h (one p) =
      FailsAt-plain i c rest e p (ih (i + 1) rest b (sym (scan_plain i c rest p) ∙ h))
  FailsAt-Round i c _ b h (three {h1} {h2} {rest} p q) =
      let h' = rw p at h in
      FailsAt-escape i c h1 h2 rest e p q
        (ih (i + 1 + 1 + 1) rest (omega arith) (sym (scan_escape i h1 h2 rest q) ∙ h'))

scan-stops :
    (i c : ℕ) (rest : Bytes) (e d : PathError)
    → scan 0 i (c ∷ rest) ≡ some e
    → byte_error i c rest ≡ some d
    → byte_error i c rest ≡ some e
unfolding scan
scan-stops i c rest e d h b = ground arith

scan-some :
    (e : PathError) (n i : ℕ) (s : Bytes) → length s ≤ n → scan 0 i s ≡ some e → FailsAt i s e
scan-some e n i [] b h = absurd (unfold scan in cc h)
scan-some e zero i (c ∷ rest) b h = absurd (omega arith)
scan-some e (suc n) i (c ∷ rest) b h = elim (Option-cases (byte_error i c rest)) [
  | inl fine ↦
      FailsAt-Round n e (scan-some e n) i c rest (omega arith) h (Round-of_none i c rest fine)
  | inr (d, bad) ↦ FailsAt-here i c rest e (scan-stops i c rest e d h bad)
]

-- An error of `validateChars` is about the first byte that no well-formed beginning reaches past,
-- and it is what that byte's round reports, with the byte's own offset.
pub validate_chars-FailsAt : (s : Bytes) (e : PathError) → validate_chars s ≡ some e → FailsAt 0 s e
unfolding validate_chars
validate_chars-FailsAt s e = scan-some e (length s) 0 s (omega arith)
