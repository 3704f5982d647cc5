-- ===== src/Invalidation/Cache.antt =====
-- internal/invalidation/cache.go: the stored key of a cache file, and the walk that removes the
-- files whose key is selected. The file system is not modelled: a `Visit` holds what the walk, the
-- context, the read and the removal answer at one entry, in the order of the walk.
pub mod Find
pub mod Key
pub mod Sweep
use cf_local.Prelude.{
  ℕ, suc, ◌+◌, Bool, not, Option, none, some, List, [], ◌∷◌, ◌==◌, if◌then◌else◌, length, take,
  drop, Bytes, codes, equal, has_prefix, Result, ok, err,
}

-- "\nKEY: "
abbrev pub key_header_prefix : Bytes
key_header_prefix = 10 ∷ codes "KEY: "

abbrev pub cache_file_head_bytes : ℕ
cache_file_head_bytes = 4096

-- `bytes.Index buf sep`: the first offset at which `sep` stands.
unfoldable pub index_of : Bytes → Bytes → Option ℕ
index_of sep [] = if has_prefix sep [] then some 0 else none
index_of sep (c ∷ rest) =
    let later = index_of sep rest in
    if has_prefix sep (c ∷ rest) then some 0 else elim later [ none ↦ none | some i ↦ some (suc i) ]

-- `bytes.IndexByte`, `strings.IndexByte`
unfoldable pub index_byte : ℕ → Bytes → Option ℕ
index_byte b [] = none
index_byte b (c ∷ rest) =
    let later = index_byte b rest in
    if c == b then some 0 else elim later [ none ↦ none | some i ↦ some (suc i) ]

pub data KeyError : Type 0 where
  no_marker not_terminated : ℕ → KeyError
  unreadable : KeyError

-- The key at the start of `line`, of a head of `n` bytes.
unfoldable pub key_line : ℕ → Bytes → Result KeyError Bytes
key_line n line = elim (index_byte 10 line) [
  | none ↦ err (not_terminated n)
  | some e ↦ ok (take e line)
]

unfoldable pub parse_cache_key_head : Bytes → Result KeyError Bytes
unfolding key_line
parse_cache_key_head buf = elim (index_of key_header_prefix buf) [
  | none ↦ err (no_marker (length buf))
  | some i ↦ key_line (length buf) (drop (i + length key_header_prefix) buf)
]

-- `none`: the file cannot be opened or read.
unfoldable pub read_cache_key : Option Bytes → Result KeyError Bytes
read_cache_key none = err unreadable
read_cache_key (some contents) = parse_cache_key_head (take cache_file_head_bytes contents)

pub data FsError : Type 0 where
  not_exist other_error : FsError

-- One call of the walk's callback and what its surroundings answer.
pub record Visit : Type 0 where
  pub path : Bytes
  pub walk_error : Option FsError
  pub cancelled : Bool
  pub is_dir : Bool
  pub contents : Option Bytes
  pub removal : Option FsError

pub data WalkError : Type 0 where
  root_missing context_done : WalkError

-- The count that `Purge` keeps, and the paths of the entries that it counted, last first.
pub record Swept : Type 0 where
  pub purged : ℕ
  pub removed : List Bytes

-- The removal at the end of the callback.
unfoldable pub remove : Visit → Swept → Swept
remove v s = elim v.removal [
  | none ↦ record { purged = s.purged + 1; removed = v.path ∷ s.removed }
  | some e ↦ elim e [
    | not_exist ↦ record { purged = s.purged + 1; removed = v.path ∷ s.removed }
    | other_error ↦ s
  ]
]

-- The callback at a readable entry that is no directory.
unfoldable pub visit_file : (Bytes → Bool) → Visit → Swept → Swept
unfolding remove
visit_file should_purge v s = elim (read_cache_key v.contents) [
  | err _ ↦ s
  | ok key ↦ if should_purge key then remove v s else s
]

-- The callback: the new count, and the error that ends the walk.
unfoldable pub visit : Bytes → (Bytes → Bool) → Visit → Swept → Swept × Option WalkError
visit dir should_purge v s = elim v.walk_error [
  | some e ↦ elim e [
    | not_exist ↦ if not (equal v.path dir) then (s, none) else (s, some root_missing)
    | other_error ↦ (s, none)
  ]
  | none ↦
      if v.cancelled
      then (s, some context_done)
      else if v.is_dir
      then (s, none)
      else (visit_file should_purge v s, none)
]

-- `filepath.WalkDir` over the entries that it meets: the first error ends it.
unfoldable pub walk : Bytes → (Bytes → Bool) → List Visit → Swept → Swept × Option WalkError
walk dir should_purge [] s = (s, none)
walk dir should_purge (v ∷ vs) s =
    let r = visit dir should_purge v s in
    elim r.1 [ none ↦ walk dir should_purge vs r.0 | some e ↦ (r.0, some e) ]

unfoldable pub purge : Bytes → (Bytes → Bool) → List Visit → Swept × Option WalkError
purge dir should_purge visits = walk dir should_purge visits (record { purged = 0; removed = [] })
