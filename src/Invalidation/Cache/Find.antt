-- ===== src/Invalidation/Cache/Find.antt =====
-- `bytes.Index` and `bytes.IndexByte` of cache.go: the offset they report is the first one.
use cf_local.Prelude.{
  ℕ, suc, ◌≡◌, refl, ap, ◌∙◌, ◌≢◌, inl, inr, true, false, some, [], ◌∷◌, ◌++◌, arith, ◌==◌, ==_iff,
  Bool-cases, Option-cases, length, All, Bytes, has_prefix, has_prefix→append, append→has_prefix,
}
use cf_local.Invalidation.Cache.{index_of, index_byte}

abbrev pub Without : ℕ → Bytes → Type 0
Without b s = All (λ c. c ≢ b) s

-- The place of the first `b` in `s`.
pub record ByteAt (b : ℕ) (s : Bytes) (i : ℕ) : Type 0 where
  pub before : Bytes
  pub after : Bytes
  pub layout : s ≡ before ++ b ∷ after
  pub at : length before ≡ i
  pub first : Without b before

index_byte-append :
    (b : ℕ) (xs rest : Bytes) → Without b xs → index_byte b (xs ++ b ∷ rest) ≡ some (length xs)
unfolding index_byte
index_byte-append b [] rest h = ground arith
index_byte-append b (x ∷ xs) rest h = ground (arith, index_byte-append b xs rest h.1)

index_byte-later :
    (b c : ℕ) (s : Bytes) (i : ℕ)
    → c ≢ b
    → index_byte b (c ∷ s) ≡ some i
    → (j : ℕ) × (index_byte b s ≡ some j) × (i ≡ suc j)
unfolding index_byte
index_byte-later b c s i ne h = elim (Option-cases (index_byte b s)) [
  | inl e ↦ absurd (ground arith)
  | inr (j, e) ↦ (j, e, ground arith)
]

index_byte-now : (b c : ℕ) (s : Bytes) (i : ℕ) → c ≡ b → index_byte b (c ∷ s) ≡ some i → 0 ≡ i
unfolding index_byte
index_byte-now b c s i e h = ground arith

ByteAt-later : (b c : ℕ) (s : Bytes) (i : ℕ) → c ≢ b → ByteAt b s i → ByteAt b (c ∷ s) (suc i)
ByteAt-later b c s i ne f = record {
  before = c ∷ f.before;
  after = f.after;
  layout = ap (◌∷◌ c) f.layout;
  at = ap suc f.at;
  first = (ne, f.first);
}

pub index_byte_sound : (b : ℕ) (s : Bytes) (i : ℕ) → index_byte b s ≡ some i → ByteAt b s i
index_byte_sound b [] i h = absurd (unfold index_byte in cc h)
index_byte_sound b (c ∷ s) i h = elim (Bool-cases (c == b)) [
  | inl e ↦
      let same = (==_iff c b).0 e in
      record {
        before = [];
        after = s;
        layout = ap (λ (t : ℕ). t ∷ s) same;
        at = index_byte-now b c s i same h;
        first = tt;
      }
  | inr n ↦
      let ne : c ≢ b = ground arith in
      let (j, e, p) = index_byte-later b c s i ne h in
      rw p (ByteAt-later b c s j ne (index_byte_sound b s j e))
]

pub index_byte_complete : (b : ℕ) (s : Bytes) (i : ℕ) → ByteAt b s i → index_byte b s ≡ some i
index_byte_complete b s i f =
    rw f.layout (index_byte-append b f.before f.after f.first ∙ ap some f.at)

-- `sep` stands at no offset inside `pre`, in `pre ++ post`.
abbrev pub NotInside : Bytes → Bytes → Bytes → Type 0
NotInside sep [] post = Unit
NotInside sep (c ∷ pre) post = (has_prefix sep (c ∷ (pre ++ post)) ≡ false) × NotInside sep pre post

-- The place of the first `sep` in `s`.
pub record TextAt (sep s : Bytes) (i : ℕ) : Type 0 where
  pub before : Bytes
  pub after : Bytes
  pub layout : s ≡ before ++ (sep ++ after)
  pub at : length before ≡ i
  pub first : NotInside sep before (sep ++ after)

index_of-now : (sep s : Bytes) (i : ℕ) → has_prefix sep s ≡ true → index_of sep s ≡ some i → 0 ≡ i
unfolding index_of
index_of-now sep [] i p h = ground arith
index_of-now sep (c ∷ s) i p h = ground arith

index_of_here : (sep s : Bytes) → has_prefix sep s ≡ true → index_of sep s ≡ some 0
unfolding index_of
index_of_here sep [] p = ground arith
index_of_here sep (c ∷ s) p = ground arith

index_of-append :
    (sep pre rest : Bytes)
    → NotInside sep pre (sep ++ rest)
    → index_of sep (pre ++ (sep ++ rest)) ≡ some (length pre)
unfolding index_of
index_of-append sep [] rest h = index_of_here sep (sep ++ rest) (append→has_prefix sep rest)
index_of-append sep (c ∷ pre) rest h = ground (arith, index_of-append sep pre rest h.1)

index_of-later :
    (sep : Bytes) (c : ℕ) (s : Bytes) (i : ℕ)
    → has_prefix sep (c ∷ s) ≡ false
    → index_of sep (c ∷ s) ≡ some i
    → (j : ℕ) × (index_of sep s ≡ some j) × (i ≡ suc j)
unfolding index_of
index_of-later sep c s i ne h = elim (Option-cases (index_of sep s)) [
  | inl e ↦ absurd (ground arith)
  | inr (j, e) ↦ (j, e, ground arith)
]

TextAt-here : (sep s : Bytes) → has_prefix sep s ≡ true → TextAt sep s 0
TextAt-here sep s p =
    let (rest, e) = has_prefix→append sep s p in
    record { before = []; after = rest; layout = e; at = refl; first = tt }

TextAt-later :
    (sep : Bytes) (c : ℕ) (s : Bytes) (i : ℕ)
    → has_prefix sep (c ∷ s) ≡ false
    → TextAt sep s i
    → TextAt sep (c ∷ s) (suc i)
TextAt-later sep c s i ne f = record {
  before = c ∷ f.before;
  after = f.after;
  layout = ap (◌∷◌ c) f.layout;
  at = ap suc f.at;
  first = (rw (← f.layout) ne, f.first);
}

index_of_nil : (sep : Bytes) (i : ℕ) → index_of sep [] ≡ some i → has_prefix sep [] ≡ true
unfolding index_of
index_of_nil sep i h = ground arith

pub index_of_sound : (sep s : Bytes) (i : ℕ) → index_of sep s ≡ some i → TextAt sep s i
index_of_sound sep [] i h =
    let p = index_of_nil sep i h in rw (← index_of-now sep [] i p h) (TextAt-here sep [] p)
index_of_sound sep (c ∷ s) i h = elim (Bool-cases (has_prefix sep (c ∷ s))) [
  | inl p ↦ rw (← index_of-now sep (c ∷ s) i p h) (TextAt-here sep (c ∷ s) p)
  | inr n ↦
      let (j, e, p) = index_of-later sep c s i n h in
      rw p (TextAt-later sep c s j n (index_of_sound sep s j e))
]

pub index_of_complete : (sep s : Bytes) (i : ℕ) → TextAt sep s i → index_of sep s ≡ some i
index_of_complete sep s i f =
    rw f.layout (index_of-append sep f.before f.after f.first ∙ ap some f.at)
