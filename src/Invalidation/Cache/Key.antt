-- ===== src/Invalidation/Cache/Key.antt =====
-- `parseCacheKeyHead` and `readCacheKey` of cache.go against the layout of a cache file.
use mathlib.Core.List.{append_assoc}
use cf_local.Prelude.{
  ℕ, ◌+◌, ◌≤◌, ◌≡◌, refl, sym, ap, ◌∙◌, ◌↔◌, inl, inr, some, [], ◌∷◌, ◌++◌, arith, Option-cases,
  length, take, drop, length-append, take-append-drop, Bytes, has_prefix, ok, drop_add-append,
  take-append,
}
use cf_local.Invalidation.Cache.{
  key_header_prefix, index_of, index_byte, key_line, parse_cache_key_head, read_cache_key,
  cache_file_head_bytes,
}
use cf_local.Invalidation.Cache.Find.{
  Without, NotInside, TextAt, index_of_sound, index_of_complete, index_byte_sound,
  index_byte_complete,
}

-- A head that holds a key line: the first marker, the key, a newline, and whatever follows.
pub record HoldsKey (buf key : Bytes) : Type 0 where
  pub before : Bytes
  pub after : Bytes
  pub layout : buf ≡ before ++ (key_header_prefix ++ (key ++ 10 ∷ after))
  pub first_marker : NotInside key_header_prefix before (key_header_prefix ++ (key ++ 10 ∷ after))
  pub one_line : Without 10 key

drop-marker :
    (before line : Bytes)
    → drop (length before + length key_header_prefix) (before ++ (key_header_prefix ++ line)) ≡ line
drop-marker before line = drop_add-append before (key_header_prefix ++ line) 6

key_line_complete :
    (n : ℕ) (key after : Bytes) → Without 10 key → key_line n (key ++ 10 ∷ after) ≡ ok key
unfolding key_line
key_line_complete n key after w =
    let found =
      index_byte_complete 10 (key ++ 10 ∷ after) (length key)
        (record { before = key; after = after; layout = refl; at = refl; first = w }) in
    rw (found, key_line) (ap ok (take-append key (10 ∷ after)))

key_line_sound :
    (n : ℕ) (line key : Bytes)
    → key_line n line ≡ ok key
    → (after : Bytes) × (line ≡ key ++ 10 ∷ after) × Without 10 key
unfolding key_line
key_line_sound n line key h = elim (Option-cases (index_byte 10 line)) [
  | inl e ↦ absurd (ground arith)
  | inr (i, e) ↦
      let f = index_byte_sound 10 line i e in
      let taken : take i line ≡ f.before =
        rw (f.layout, ← f.at) (take-append f.before (10 ∷ f.after)) in
      let key_is : key ≡ f.before = ground arith in (f.after, rw key_is f.layout, rw key_is f.first)
]

parse_complete : (buf key : Bytes) → HoldsKey buf key → parse_cache_key_head buf ≡ ok key
unfolding parse_cache_key_head
parse_complete buf key h =
    let found = index_of_complete key_header_prefix buf (length h.before) (record {
      before = h.before;
      after = key ++ 10 ∷ h.after;
      layout = h.layout;
      at = refl;
      first = h.first_marker;
    }) in
    rw (found, parse_cache_key_head)
      (rw h.layout (rw drop-marker (key_line_complete _ key h.after h.one_line)))

HoldsKey-of_line :
    (buf key line : Bytes) (i : ℕ) (f : TextAt key_header_prefix buf i)
    → f.after ≡ line
    → (after : Bytes) × (line ≡ key ++ 10 ∷ after) × Without 10 key
    → HoldsKey buf key
HoldsKey-of_line buf key line i f e (after, l, w) =
    let whole : f.after ≡ key ++ 10 ∷ after = e ∙ l in
    record {
      before = f.before;
      after = after;
      layout = rw whole at f.layout;
      first_marker = rw whole at f.first;
      one_line = w;
    }

parse_sound : (buf key : Bytes) → parse_cache_key_head buf ≡ ok key → HoldsKey buf key
unfolding parse_cache_key_head
parse_sound buf key h = elim (Option-cases (index_of key_header_prefix buf)) [
  | inl e ↦ absurd (ground arith)
  | inr (i, e) ↦
      let f = index_of_sound key_header_prefix buf i e in
      let line = drop (i + 6) buf in
      let same : line ≡ f.after = rw (f.layout, ← f.at) (drop-marker f.before f.after) in
      HoldsKey-of_line buf key line i f (sym same)
        (key_line_sound (length buf) line key (ground arith))
]

-- `parseCacheKeyHead` returns a key exactly when the head holds that key behind its first marker.
pub parse_cache_key_head_iff :
    (buf key : Bytes) → (parse_cache_key_head buf ≡ ok key) ↔ HoldsKey buf key
parse_cache_key_head_iff buf key = (parse_sound buf key, parse_complete buf key)

has_prefix-append : (p s t : Bytes) → length p ≤ length s → has_prefix p (s ++ t) ≡ has_prefix p s
unfolding has_prefix
has_prefix-append [] s t h = refl
has_prefix-append (x ∷ p) [] t h = absurd (omega arith)
has_prefix-append (x ∷ p) (y ∷ s) t h = ground (arith, has_prefix-append p s t)

-- What follows a complete key line has no part in finding it.
NotInside-append :
    (sep pre post more : Bytes)
    → length sep ≤ length post
    → NotInside sep pre post
    → NotInside sep pre (post ++ more)
NotInside-append sep [] post more b h = tt
NotInside-append sep (c ∷ pre) post more b h =
    let longer : length sep ≤ length (c ∷ (pre ++ post)) = omega (arith, length-append pre post) in
    (
      rw (← append_assoc pre post more)
          (has_prefix-append sep (c ∷ (pre ++ post)) more longer ∙ h.0),
      NotInside-append sep pre post more b h.1,
    )

HoldsKey-append : (buf key more : Bytes) → HoldsKey buf key → HoldsKey (buf ++ more) key
HoldsKey-append buf key more h =
    let line = key_header_prefix ++ (key ++ 10 ∷ h.after) in
    let longer : line ++ more ≡ key_header_prefix ++ (key ++ 10 ∷ (h.after ++ more)) =
      simp append_assoc in
    let inside =
      NotInside-append key_header_prefix h.before line more (omega arith) h.first_marker in
    record {
      before = h.before;
      after = h.after ++ more;
      layout =
          rw h.layout (append_assoc h.before line more ∙ ap (λ (t : Bytes). h.before ++ t) longer);
      first_marker = rw longer at inside;
      one_line = h.one_line;
    }

-- A key found in the first 4096 bytes of a file is the key of the whole file.
pub read_cache_key-whole :
    (contents key : Bytes)
    → read_cache_key (some contents) ≡ ok key
    → parse_cache_key_head contents ≡ ok key
unfolding read_cache_key
read_cache_key-whole contents key h =
    let head = take cache_file_head_bytes contents in
    let tail = drop cache_file_head_bytes contents in
    let all_of_it = HoldsKey-append head key tail (parse_sound head key h) in
    parse_complete contents key (rw (take-append-drop cache_file_head_bytes contents) at all_of_it)
