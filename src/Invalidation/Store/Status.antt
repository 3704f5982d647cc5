-- ===== src/Invalidation/Store/Status.antt =====
-- `UpdateStatus` and `RecoverInProgress`: what they do to each record.
use cf_local.Prelude.{
  ◌≡◌, refl, sym, ◌∙◌, inl, inr, Bool, true, false, Option, none, some, List, [], ◌∷◌, arith,
  if◌then◌else◌, Bool-cases, Option-cases, any, Bytes, equal, equal_iff, lookup, insert,
  lookup-insert, ok, err, Result-cases,
}
use cf_local.Storage.{Bbolt, Json}
use cf_local.Invalidation.Store.{
  Record, status_completed, validate_status, put, write_status, update_status, BoltStore,
  recover_ids, not_found, invalid_status,
}
use cf_local.Invalidation.Store.Valid.{IsValid, write_at-IsValid}

abbrev pub with_status : Bytes → Record → Record
with_status status r = record r { status = status }

with_status_self : (status : Bytes) (r : Record) → r.status ≡ status → with_status status r ≡ r
with_status_self status r e = ground arith

abbrev pub contains : Bytes → List Bytes → Bool
contains j ids = any (λ k. equal k j) ids

abbrev pub completed : Option Record → Option Record
completed none = none
completed (some r) = some (with_status status_completed r)

completed-completed : (o : Option Record) → completed (completed o) ≡ completed o
completed-completed none = refl
completed-completed (some r) = refl

module _ (bolt : Bbolt) (json : Json Record) where
  -- What a successful `UpdateStatus` did: one record has the status, and the rest is as before.
  pub record Updated (id status : Bytes) (s : BoltStore bolt json) (r : Record)
      (t : BoltStore bolt json) : Type 0 where
    pub known : validate_status status ≡ true
    pub old : Record
    pub found : lookup id s.by_id ≡ some old
    pub result_is : r ≡ with_status status old
    pub looks : (j : Bytes) → lookup j t.by_id ≡ (if equal id j then some r else lookup j s.by_id)
    pub keeps : IsValid bolt json s → IsValid bolt json t

  module _ (id status : Bytes) (s : BoltStore bolt json) (r : Record)
      (t : BoltStore bolt json) where
    looks_same :
        (old : Record) (j : Bytes)
        → lookup id s.by_id ≡ some old
        → lookup j s.by_id ≡ (if equal id j then some old else lookup j s.by_id)
    looks_same old j f = ground (arith, equal_iff id j)

    Updated-same :
        (old : Record)
        → lookup id s.by_id ≡ some old
        → validate_status status ≡ true
        → equal old.status status ≡ true
        → r ≡ old
        → t ≡ s
        → Updated id status s r t
    Updated-same old f k e er et = record {
      known = k;
      old = old;
      found = f;
      result_is = er ∙ sym (with_status_self status old ((equal_iff old.status status).0 e));
      looks = λ j. rw (er, et) (looks_same old j f);
      keeps = λ v. rw et v;
    }

    written-IsValid :
        (old : Record)
        → lookup id s.by_id ≡ some old
        → validate_status status ≡ true
        → write_status bolt json id status old s ≡ ok (r, t)
        → IsValid bolt json s
        → IsValid bolt json t
    unfolding write_status
    written-IsValid old f k h v = elim (Result-cases (put bolt json (with_status status old) s)) [
      | inr (x, e) ↦ absurd (ground arith)
      | inl (db, e) ↦
          let t_is : record { db = db; by_id = insert id (with_status status old) s.by_id } ≡ t =
            ground arith in
          rw (← t_is) (
            write_at-IsValid bolt json id (with_status status old) s db v (v.good id old f).keyed k
              e)
    ]

    Updated-written :
        (old : Record)
        → lookup id s.by_id ≡ some old
        → validate_status status ≡ true
        → write_status bolt json id status old s ≡ ok (r, t)
        → Updated id status s r t
    unfolding write_status
    Updated-written old f k h = record {
      known = k;
      old = old;
      found = f;
      result_is = ground arith;
      looks = λ j. ground (arith, lookup-insert id j r s.by_id);
      keeps = written-IsValid old f k h;
    }

    pub update_status-Updated :
        update_status bolt json id status s ≡ ok (r, t) → Updated id status s r t
    unfolding update_status
    update_status-Updated h = elim (Option-cases (lookup id s.by_id)) [
      | inl e ↦ absurd (ground arith)
      | inr (old, f) ↦ elim (Bool-cases (equal old.status status)) [
        | inl e ↦ Updated-same old f (ground arith) e (ground arith) (ground arith)
        | inr e ↦ Updated-written old f (ground arith) (ground arith)
      ]
    ]

  -- `UpdateStatus` refuses an unknown status and a missing ID, in this order.
  pub update_status_errors :
      (id status : Bytes) (s : BoltStore bolt json)
      → ((validate_status status ≡ false)
          → update_status bolt json id status s ≡ err invalid_status)
        × ((validate_status status ≡ true)
            → lookup id s.by_id ≡ none
            → update_status bolt json id status s ≡ err not_found)
  unfolding update_status
  update_status_errors id status s = (λ h. ground arith, λ h n. ground arith)

  -- Each ID of the list is completed, and everything else is as before.
  pub recover_ids-lookup :
      (ids : List Bytes) (s t : BoltStore bolt json) (j : Bytes)
      → recover_ids bolt json ids s ≡ (none, t)
      → lookup j t.by_id
        ≡ (if contains j ids then completed (lookup j s.by_id) else lookup j s.by_id)
  unfolding recover_ids
  recover_ids-lookup [] s t j h = ground arith
  recover_ids-lookup (id ∷ rest) s t j h =
      elim (Result-cases (update_status bolt json id status_completed s)) [
        | inr (x, e) ↦ absurd (ground arith)
        | inl ((r, s'), e) ↦
            let u = update_status-Updated id status_completed s r s' e in
            ground (
              arith,
              recover_ids-lookup rest s' t j,
              u.looks j,
              u.result_is,
              u.found,
              equal_iff id j,
              completed-completed (lookup j s.by_id),
            )
      ]
