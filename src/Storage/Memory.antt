-- ===== src/Storage/Memory.antt =====
-- A bucket in memory that never fails, for tests: the assumptions on bbolt can be met.
use cf_local.Prelude.{
  ◌≡◌, sym, ap, ◌∙◌, Option, none, some, if◌then◌else◌, Bytes, equal, Dict, lookup, delete, insert,
  lookup-delete, lookup-insert, Distinct, Distinct-delete, Distinct-insert,
}
use cf_local.Storage.{Bbolt}

abbrev pub MemoryDb : Type 0
MemoryDb = (m : Dict Bytes) × Distinct m

abbrev memory_put : Bytes → Bytes → MemoryDb → Option MemoryDb
memory_put k v d = some (insert k v d.0, Distinct-insert k v d.0 d.1)

abbrev memory_remove : Bytes → MemoryDb → Option MemoryDb
memory_remove k d = some (delete k d.0, Distinct-delete k d.0 d.1)

same_value : (d e : MemoryDb) (j : Bytes) → some d ≡ some e → lookup j e.0 ≡ lookup j d.0
same_value d e j p =
    ap (λ (o : Option MemoryDb). elim o [ none ↦ none | some x ↦ lookup j x.0 ]) (sym p)

pub memory_create_law : (d e : MemoryDb) (k : Bytes) → some d ≡ some e → lookup k e.0 ≡ lookup k d.0
memory_create_law d e k p = same_value d e k p

pub memory_put_law :
    (d e : MemoryDb) (k j v : Bytes)
    → memory_put k v d ≡ some e
    → lookup j e.0 ≡ (if equal k j then some v else lookup j d.0)
memory_put_law d e k j v p =
    same_value (insert k v d.0, Distinct-insert k v d.0 d.1) e j p ∙ lookup-insert k j v d.0

pub memory_remove_law :
    (d e : MemoryDb) (k j : Bytes)
    → memory_remove k d ≡ some e
    → lookup j e.0 ≡ (if equal k j then none else lookup j d.0)
memory_remove_law d e k j p =
    same_value (delete k d.0, Distinct-delete k d.0 d.1) e j p ∙ lookup-delete k j d.0

abbrev pub memory : Bbolt
memory = record {
  Db = MemoryDb;
  create_bucket = λ d. some d;
  entries = λ d. d.0;
  put = memory_put;
  remove = memory_remove;
  entries-Distinct = λ d. d.1;
  entries-create_bucket = λ {d} {e} k p. memory_create_law d e k p;
  entries-put = λ {d} {e} k j v p. memory_put_law d e k j v p;
  entries-remove = λ {d} {e} k j p. memory_remove_law d e k j p;
}
