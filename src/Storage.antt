-- ===== src/Storage.antt =====
-- What the stores use of bbolt and of encoding/json: one bucket of a database, and the coding of a
-- record. Both are parameters of the stores. A transaction may fail, and then changes nothing.
pub mod Memory
use cf_local.Prelude.{
  ◌-◌, ◌≡◌, Option, none, some, if◌then◌else◌, Bytes, equal, Dict, lookup, Distinct,
}

-- `Db` is the content of one bucket, with all that decides whether the next transaction commits.
pub record Bbolt : Type 1 where
  pub Db : Type 0
  -- CreateBucketIfNotExists
  pub create_bucket : Db → Option Db
  -- What ForEach visits, in its order.
  pub entries : Db → Dict Bytes
  -- Put and Delete in an Update transaction; `none` where it does not commit.
  pub put : Bytes → Bytes → Db → Option Db
  pub remove : Bytes → Db → Option Db
  -- Documented behaviour: keys are unique, and a committed transaction writes its one key.
  pub entries-Distinct : (d : Db) → Distinct (entries d)
  pub entries-create_bucket :
      {d e : Db} (k : Bytes)
      → create_bucket d ≡ some e
      → lookup k (entries e) ≡ lookup k (entries d)
  pub entries-put :
      {d e : Db} (k j v : Bytes)
      → put k v d ≡ some e
      → lookup j (entries e) ≡ (if equal k j then some v else lookup j (entries d))
  pub entries-remove :
      {d e : Db} (k j : Bytes)
      → remove k d ≡ some e
      → lookup j (entries e) ≡ (if equal k j then none else lookup j (entries d))

-- json.Marshal and json.Unmarshal at one type; `none` is an error.
pub record Json (A : Type 0) : Type 0 where
  pub marshal : A → Option Bytes
  pub unmarshal : Bytes → Option A

-- `a` comes back from its coding.
abbrev pub RoundTrips : {A : Type 0} → Json A → A → Type 0
RoundTrips json a = (b : Bytes) → json.marshal a ≡ some b → json.unmarshal b ≡ some a
