-- ===== src/CachePolicy/Store/Index.antt =====
-- The two maps of the store describe each other: `by_id` is keyed by the records' IDs, and
-- `by_name` takes every name in use to the one record that has it.
use cf_local.Prelude.{
  ◌≡◌, refl, ap, ◌⊎◌, inl, inr, Option, none, some, [], ◌∷◌, arith, Bool-cases, Bytes, equal,
  equal_iff, equal_refl, Dict, lookup, delete, insert, lookup-delete, lookup-insert,
  lookup-insert_self, lookup-delete_self,
}
use cf_local.CachePolicy.Store.{Record, rename}

abbrev pub name_of : Record → Option Bytes
name_of r = elim r.config [ none ↦ none | some c ↦ c.name ]

pub record Indexed (by_id : Dict Record) (by_name : Dict Bytes) : Type 0 where
  pub keyed : (j : Bytes) (r : Record) → lookup j by_id ≡ some r → r.id ≡ j
  pub complete :
      (j : Bytes) (r : Record)
      → lookup j by_id ≡ some r
      → (n : Bytes) × (name_of r ≡ some n) × (lookup n by_name ≡ some j)
  pub sound :
      (n j : Bytes)
      → lookup n by_name ≡ some j
      → (r : Record) × (lookup j by_id ≡ some r) × (name_of r ≡ some n)

-- Two records of one name are one record.
pub Indexed-unique :
    {by_id : Dict Record} {by_name : Dict Bytes}
    → Indexed by_id by_name
    → (i j n : Bytes) (r q : Record) → lookup i by_id ≡ some r
    → lookup j by_id ≡ some q
    → name_of r ≡ some n
    → name_of q ≡ some n
    → i ≡ j
Indexed-unique x i j n r q at_i at_j named_r named_q =
    let (a, a_named, a_at) = x.complete i r at_i in
    let (b, b_named, b_at) = x.complete j q at_j in ground arith

module _ (by_id : Dict Record) (by_name : Dict Bytes) (x : Indexed by_id by_name) where
  pub Indexed-add :
      (q : Record) (id n : Bytes)
      → q.id ≡ id
      → name_of q ≡ some n
      → lookup id by_id ≡ none
      → lookup n by_name ≡ none
      → Indexed (insert id q by_id) (insert n id by_name)
  Indexed-add q id n at_id named fresh free = record {
    keyed = λ j r h. elim (Bool-cases (equal id j)) [
      | inl e ↦ ground (arith, lookup-insert id j q by_id, equal_iff id j)
      | inr e ↦ x.keyed j r (ground (arith, lookup-insert id j q by_id))
    ];
    complete = λ j r h. elim (Bool-cases (equal id j)) [
      | inl e ↦ (
        n,
        ground (arith, lookup-insert id j q by_id),
        ground (arith, equal_iff id j, lookup-insert_self n id by_name),
      )
      | inr e ↦
          let (a, a_named, a_at) = x.complete j r (ground (arith, lookup-insert id j q by_id)) in
          (a, a_named, ground (arith, lookup-insert n a id by_name, equal_iff n a))
    ];
    sound = λ a j h. elim (Bool-cases (equal n a)) [
      | inl e ↦ (
        q,
        ground (arith, lookup-insert n a id by_name, lookup-insert id j q by_id, equal_refl id),
        ground (arith, equal_iff n a),
      )
      | inr e ↦
          let (r, found, r_named) = x.sound a j (ground (arith, lookup-insert n a id by_name)) in
          (r, ground (arith, lookup-insert id j q by_id, equal_iff id j), r_named)
    ];
  }

  pub Indexed-remove :
      (r : Record) (id n : Bytes)
      → lookup id by_id ≡ some r
      → name_of r ≡ some n
      → Indexed (delete id by_id) (delete n by_name)
  Indexed-remove r id n found named = record {
    keyed = λ j q h. x.keyed j q (ground (arith, lookup-delete id j by_id));
    complete = λ j q h.
        let at_j : lookup j by_id ≡ some q = ground (arith, lookup-delete id j by_id) in
        let (a, a_named, a_at) = x.complete j q at_j in
        let (b, b_named, b_at) = x.complete id r found in
        (
          a,
          a_named,
          ground (
            arith,
            lookup-delete n a by_name,
            lookup-delete id j by_id,
            equal_iff n a,
            equal_iff id j,
          ),
        );
    sound = λ a j h.
        let at_a : lookup a by_name ≡ some j = ground (arith, lookup-delete n a by_name) in
        let (q, at_j, q_named) = x.sound a j at_a in
        (
          q,
          ground (
            arith,
            lookup-delete id j by_id,
            equal_iff id j,
            lookup-delete n a by_name,
            equal_iff n a,
          ),
          q_named,
        );
  }

  -- A record is replaced by one of the same name.
  pub Indexed-replace :
      (r q : Record) (id n : Bytes)
      → lookup id by_id ≡ some r
      → name_of r ≡ some n
      → q.id ≡ id
      → name_of q ≡ some n
      → Indexed (insert id q by_id) by_name
  Indexed-replace r q id n found r_named at_id q_named = record {
    keyed = λ j s h. elim (Bool-cases (equal id j)) [
      | inl e ↦ ground (arith, lookup-insert id j q by_id, equal_iff id j)
      | inr e ↦ x.keyed j s (ground (arith, lookup-insert id j q by_id))
    ];
    complete = λ j s h. elim (Bool-cases (equal id j)) [
      | inl e ↦
          let (b, b_named, b_at) = x.complete id r found in
          (n, ground (arith, lookup-insert id j q by_id), ground (arith, equal_iff id j))
      | inr e ↦ x.complete j s (ground (arith, lookup-insert id j q by_id))
    ];
    sound = λ a j h. elim (Bool-cases (equal id j)) [
      | inl e ↦
          let (s, at_j, s_named) = x.sound a j h in
          (q, ground (arith, lookup-insert id j q by_id), ground (arith, equal_iff id j))
      | inr e ↦
          let (s, at_j, s_named) = x.sound a j h in
          (s, ground (arith, lookup-insert id j q by_id), s_named)
    ];
  }

delete-delete {ℓ} : {V : Type ℓ} (k : Bytes) (m : Dict V) → delete k (delete k m) ≡ delete k m
unfolding delete
delete-delete k [] = refl
delete-delete k ((j, v) ∷ m) = elim (Bool-cases (equal j k)) [
  | inl e ↦ rw e (delete-delete k m)
  | inr e ↦ rw e (rw (e, delete) (ap (◌∷◌ (j, v)) (delete-delete k m)))
]

insert-delete {ℓ} :
    {V : Type ℓ} (k : Bytes) (v : V) (m : Dict V) → insert k v (delete k m) ≡ insert k v m
unfolding insert
insert-delete k v m = ap (◌∷◌ (k, v)) (delete-delete k m)

-- An update under a name that is free, or is the record's own.
pub Indexed-rename :
    (by_id : Dict Record) (by_name : Dict Bytes)
    → Indexed by_id by_name
    → (r q : Record) (id old n : Bytes) → lookup id by_id ≡ some r
    → name_of r ≡ some old
    → q.id ≡ id
    → name_of q ≡ some n
    → (lookup n by_name ≡ none) ⊎ (lookup n by_name ≡ some id)
    → Indexed (insert id q by_id) (rename old n id by_name)
unfolding rename
Indexed-rename by_id by_name x r q id old n found r_named at_id q_named free =
    elim (Bool-cases (equal old n)) [
      | inl e ↦ rw e (
          Indexed-replace by_id by_name x r q id n found (ground (arith, equal_iff old n)) at_id
            q_named)
      | inr e ↦
          let gone : lookup n (delete old by_name) ≡ none =
            let (a, a_named, a_at) = x.complete id r found in
            elim free [
              | inl f ↦ ground (arith, lookup-delete old n by_name)
              | inr f ↦
                  let (s, at_id', s_named) = x.sound n id f in
                  absurd (ground (arith, equal_iff old n))
            ] in
          rw e (
            rw (← insert-delete id q by_id) (
              Indexed-add (delete id by_id) (delete old by_name)
                (Indexed-remove by_id by_name x r id old found r_named) q id n at_id q_named
                (lookup-delete_self id by_id) gone))
    ]
