-- ===== src/Invalidation/Store/Recover.antt =====
-- `RecoverInProgress` as a whole.
use cf_local.Prelude.{
  ℕ, ◌≡◌, refl, sym, ◌∙◌, inl, inr, Bool, true, false, Option, none, some, List, [], ◌∷◌, arith,
  if◌then◌else◌, Bool-cases, Option-cases, length, All, keep, Bytes, equal, equal_iff, equal_refl,
  Dict, lookup, insert, ok, Result-cases, Distinct, values,
}
use cf_local.Storage.{Bbolt, Json}
use cf_local.Invalidation.Store.{
  Record, StoreError, status_in_progress, status_completed, validate_status, put, write_status,
  update_status, BoltStore, recover_ids, recover_in_progress, in_progress_ids,
}
use cf_local.Invalidation.Store.Valid.{IsValid}
use cf_local.Invalidation.Store.Status.{
  with_status, contains, completed, recover_ids-lookup, update_status-Updated, Updated,
}

abbrev is_in_progress : Option Record → Bool
is_in_progress none = false
is_in_progress (some r) = equal r.status status_in_progress

contains-in_progress_ids :
    (j : Bytes) (m : Dict Record)
    → Distinct m
    → contains j (in_progress_ids m) ≡ is_in_progress (lookup j m)
unfolding in_progress_ids lookup
contains-in_progress_ids j [] d = refl
contains-in_progress_ids j ((k, r) ∷ m) d =
    ground (arith, contains-in_progress_ids j m d.1, equal_iff k j)

-- A record with a known status that is not in progress is completed already.
completed-known :
    (r : Record)
    → validate_status r.status ≡ true
    → equal r.status status_in_progress ≡ false
    → with_status status_completed r ≡ r
unfolding validate_status
completed-known r k n = ground (arith, equal_iff r.status status_completed)

completed_known : validate_status status_completed ≡ true
unfolding validate_status equal
completed_known = refl

-- The number of records in progress.
abbrev pub in_progress_count : Dict Record → ℕ
in_progress_count m = length (keep (λ r. equal r.status status_in_progress) (values m))

length-in_progress_ids : (m : Dict Record) → length (in_progress_ids m) ≡ in_progress_count m
unfolding in_progress_ids
length-in_progress_ids [] = refl
length-in_progress_ids ((k, r) ∷ m) = ground (arith, length-in_progress_ids m)

module _ (bolt : Bbolt) (json : Json Record) where
  recover_parts :
      (s t : BoltStore bolt json) (n : ℕ)
      → recover_in_progress bolt json s ≡ (ok n, t)
      → (recover_ids bolt json (in_progress_ids s.by_id) s ≡ (none, t))
        × (n ≡ in_progress_count s.by_id)
  unfolding recover_in_progress
  recover_parts s t n h = ground (arith, length-in_progress_ids s.by_id)

  completed-where :
      (s : BoltStore bolt json) (j : Bytes)
      → IsValid bolt json s
      → (if contains j (in_progress_ids s.by_id)
          then completed (lookup j s.by_id)
          else lookup j s.by_id)
        ≡ completed (lookup j s.by_id)
  completed-where s j v = elim (Option-cases (lookup j s.by_id)) [
    | inl e ↦ ground arith
    | inr (r, e) ↦ ground (
      arith,
      contains-in_progress_ids j s.by_id v.distinct,
      completed-known r (v.good j r e).status_known,
    )
  ]

  recover_ids-IsValid :
      (ids : List Bytes) (s t : BoltStore bolt json) (x : Option StoreError)
      → recover_ids bolt json ids s ≡ (x, t)
      → IsValid bolt json s
      → IsValid bolt json t
  unfolding recover_ids
  recover_ids-IsValid [] s t x h v = let e : s ≡ t = ground arith in rw (← e) v
  recover_ids-IsValid (id ∷ rest) s t x h v =
      elim (Result-cases (update_status bolt json id status_completed s)) [
        | inr (y, e) ↦ let same : s ≡ t = ground arith in rw (← same) v
        | inl ((r, s'), e) ↦
            recover_ids-IsValid rest s' t x (ground arith)
              ((update_status-Updated bolt json id status_completed s r s' e).keeps v)
      ]

  -- What a successful recovery of a valid store does: every record is completed and otherwise as before, no record
  -- appears or goes, and the count is the number of records that were in progress.
  pub recover_in_progress-completed :
      (s t : BoltStore bolt json) (n : ℕ)
      → IsValid bolt json s
      → recover_in_progress bolt json s ≡ (ok n, t)
      → ((j : Bytes) → lookup j t.by_id ≡ completed (lookup j s.by_id))
        × (n ≡ in_progress_count s.by_id)
        × IsValid bolt json t
  recover_in_progress-completed s t n v h =
      let (ran, count) = recover_parts s t n h in
      (
        λ j.
            recover_ids-lookup bolt json (in_progress_ids s.by_id) s t j ran
            ∙ completed-where s j v,
        count,
        recover_ids-IsValid (in_progress_ids s.by_id) s t none ran v,
      )

  -- A storage on which every coding and every transaction succeeds.
  pub record IsReliable : Type 0 where
    pub marshals : (r : Record) → (b : Bytes) × (json.marshal r ≡ some b)
    pub commits : (k b : Bytes) (d : bolt.Db) → (e : bolt.Db) × (bolt.put k b d ≡ some e)

  write_status_total :
      (id status : Bytes) (r : Record) (s : BoltStore bolt json)
      → IsReliable
      → (q : Record) × (t : BoltStore bolt json) × (write_status bolt json id status r s
          ≡ ok (q, t))
  unfolding write_status put
  write_status_total id status r s rel =
      let (b, m) = rel.marshals (with_status status r) in
      let (d, p) = rel.commits r.id b s.db in
      (
        with_status status r,
        record { db = d; by_id = insert id (with_status status r) s.by_id },
        ground arith,
      )

  update_status_total :
      (id status : Bytes) (r : Record) (s : BoltStore bolt json)
      → IsReliable
      → validate_status status ≡ true
      → lookup id s.by_id ≡ some r
      → (q : Record) × (t : BoltStore bolt json) × (update_status bolt json id status s ≡ ok (q, t))
  unfolding update_status
  update_status_total id status r s rel k f =
      let (q, t, w) = write_status_total id status r s rel in
      elim (Bool-cases (equal r.status status)) [
        | inl e ↦ (r, s, ground arith)
        | inr e ↦ (q, t, ground arith)
      ]

  abbrev Present : BoltStore bolt json → Bytes → Type 0
  Present s id = (r : Record) × (lookup id s.by_id ≡ some r)

  Present-update :
      (s t : BoltStore bolt json) (id j : Bytes) (r : Record)
      → Updated bolt json id status_completed s r t
      → Present s j
      → Present t j
  Present-update s t id j r u (q, e) = elim (Bool-cases (equal id j)) [
    | inl x ↦ (r, u.looks j ∙ rw x)
    | inr x ↦ (q, u.looks j ∙ rw x e)
  ]

  All-Present-update :
      (s t : BoltStore bolt json) (id : Bytes) (r : Record) (ids : List Bytes)
      → Updated bolt json id status_completed s r t
      → All (Present s) ids
      → All (Present t) ids
  All-Present-update s t id r [] u p = tt
  All-Present-update s t id r (j ∷ ids) u p =
      (Present-update s t id j r u p.0, All-Present-update s t id r ids u p.1)

  recover_ids_total :
      (ids : List Bytes) (s : BoltStore bolt json)
      → IsReliable
      → All (Present s) ids
      → (t : BoltStore bolt json) × (recover_ids bolt json ids s ≡ (none, t))
  unfolding recover_ids
  recover_ids_total [] s rel p = (s, refl)
  recover_ids_total (id ∷ rest) s rel p =
      let (r, found) = p.0 in
      let (q, s', e) = update_status_total id status_completed r s rel completed_known found in
      let u = update_status-Updated bolt json id status_completed s q s' e in
      let (t, h) = recover_ids_total rest s' rel (All-Present-update s s' id q rest u p.1) in
      (t, ground arith)

  All-of_contains :
      (P : Bytes → Type 0) (ids : List Bytes)
      → ((j : Bytes) → contains j ids ≡ true → P j)
      → All P ids
  All-of_contains P [] h = tt
  All-of_contains P (k ∷ ids) h =
      (h k (ground (arith, equal_refl k)), All-of_contains P ids (λ j c. h j (ground arith)))

  Present-of_in_progress :
      (s : BoltStore bolt json) (j : Bytes) → is_in_progress (lookup j s.by_id) ≡ true → Present s j
  Present-of_in_progress s j h = elim (Option-cases (lookup j s.by_id)) [
    | inl e ↦ absurd (ground arith)
    | inr (r, e) ↦ (r, e)
  ]

  -- On a storage that works, recovery of a valid store succeeds with the number of the records that
  -- were in progress, and behind it every record is completed and otherwise as before.
  pub recover_in_progress_total :
      (s : BoltStore bolt json)
      → IsReliable
      → IsValid bolt json s
      → (t : BoltStore bolt json) × (recover_in_progress bolt json s
          ≡ (ok (in_progress_count s.by_id), t))
        × ((j : Bytes) → lookup j t.by_id ≡ completed (lookup j s.by_id))
  unfolding recover_in_progress
  recover_in_progress_total s rel v =
      let ids = in_progress_ids s.by_id in
      let all_present = All-of_contains (Present s) ids (λ j c.
        Present-of_in_progress s j (sym (contains-in_progress_ids j s.by_id v.distinct) ∙ c)) in
      let (t, ran) = recover_ids_total ids s rel all_present in
      (
        t,
        ground (arith, length-in_progress_ids s.by_id),
        λ j. recover_ids-lookup bolt json ids s t j ran ∙ completed-where s j v,
      )
