-- ===== src/Invalidation/Handler/Create.antt =====
-- `AWSHandler.Create`: exactly which requests it accepts, and what accepting and refusing do.
use cf_local.Prelude.{
  ℕ, ◌≤◌, ◌≡◌, refl, ◌≢◌, ◌⊎◌, inl, inr, Bool, false, Option, none, some, List, [], ◌∷◌, map, arith,
  if◌then◌else◌, Bool-cases, Option-cases, take, All, Bytes, equal, equal_iff, equal-ne, ok, err,
  Result-cases,
}
use cf_local.Xml.Codes.{Code, content, write_error-status, write_internal_error}
use cf_local.Invalidation.Matcher.{make_pattern, parse_pattern}
use cf_local.Invalidation.Matcher.Denotes.{IsValidPath, parse_pattern_iff}
use cf_local.Invalidation.Worker.{parse_paths}
use cf_local.Invalidation.Store.{Batch, Record, StoreError}
use cf_local.Invalidation.Handler.{
  BatchXml, batch_to_sdk, any_refused, check_batch, items_of, Outcome, refused, Store,
  to_response_invalidation, store_batch, create, aws_max_body_bytes, InvalidationXml,
}

valid-parses : (p : Bytes) → IsValidPath p → parse_pattern p ≡ ok (make_pattern p)
valid-parses p v = (parse_pattern_iff p (make_pattern p)).1 (v, refl)

any_refused_sound : (items : List Bytes) → any_refused items ≡ false → All IsValidPath items
unfolding any_refused
any_refused_sound [] h = tt
any_refused_sound (p ∷ rest) h = elim (Result-cases (parse_pattern p)) [
  | inr (x, e) ↦ absurd (ground arith)
  | inl (pat, e) ↦ (((parse_pattern_iff p pat).0 e).0, any_refused_sound rest (ground arith))
]

any_refused_complete : (items : List Bytes) → All IsValidPath items → any_refused items ≡ false
unfolding any_refused
any_refused_complete [] h = refl
any_refused_complete (p ∷ rest) h =
    ground (arith, valid-parses p h.0, any_refused_complete rest h.1)

-- The worker parses again what the handler has accepted, and skips none of it.
parse_paths-valid :
    (items : List Bytes) → All IsValidPath items → parse_paths items ≡ map make_pattern items
unfolding parse_paths
parse_paths-valid [] h = refl
parse_paths-valid (p ∷ rest) h = ground (arith, valid-parses p h.0, parse_paths-valid rest h.1)

-- The requests that are well formed: a caller reference, and one or more paths, all valid.
pub record IsAcceptable (wrapper : BatchXml) (items : List Bytes) : Type 0 where
  pub has_reference : wrapper.caller_reference ≢ []
  pub has_paths : wrapper.paths ≡ some items
  pub some_path : items ≢ []
  pub valid_paths : All IsValidPath items

check_batch_sound :
    (w : BatchXml)
    → check_batch (batch_to_sdk w) ≡ none
    → IsAcceptable w (items_of (batch_to_sdk w))
unfolding check_batch batch_to_sdk items_of
check_batch_sound w h = elim (Option-cases w.paths) [
  | inl e ↦ absurd (ground arith)
  | inr (items, e) ↦
      let same : items_of (batch_to_sdk w) ≡ items = rw (e, items_of) refl in
      rw same (record {
        has_reference = ground (arith, equal_iff w.caller_reference []);
        has_paths = e;
        some_path = ground arith;
        valid_paths = any_refused_sound items (ground arith);
      })
]

check_batch_complete :
    (w : BatchXml) (items : List Bytes)
    → IsAcceptable w items
    → (check_batch (batch_to_sdk w) ≡ none) × (items_of (batch_to_sdk w) ≡ items)
unfolding check_batch batch_to_sdk items_of
check_batch_complete w [] a = absurd (a.some_path refl)
check_batch_complete w (p ∷ rest) a =
    let ne = equal-ne w.caller_reference [] a.has_reference in
    let fine = any_refused_complete (p ∷ rest) a.valid_paths in
    (ground (arith, ne, fine, a.has_paths), ground (arith, a.has_paths))

module _ (store : Store) (unmarshal : Bytes → Option BatchXml) (format_time : ℕ → Bytes) where
  -- An accepted request: what it holds, what the store did, and what came of it.
  pub record Accepted (wired : Bool) (dist_id : Bytes) (body minted : Option Bytes) (now : ℕ)
      (s : store.State) (o : Outcome store.State) : Type 0 where
    pub bytes : Bytes
    pub wrapper : BatchXml
    pub items : List Bytes
    pub record_made : Record
    pub named : dist_id ≢ []
    pub body_is : body ≡ some bytes
    pub decoded : unmarshal (take aws_max_body_bytes bytes) ≡ some wrapper
    pub acceptable : IsAcceptable wrapper items
    pub stored :
        store.create dist_id (some (batch_to_sdk wrapper)) minted now s ≡ ok (record_made, o.state)
    pub answer : o.response ≡ record {
      status = 201;
      body = content (to_response_invalidation store unmarshal format_time record_made);
    }
    pub handed_on : o.enqueued ≡ (if wired then some (record_made.id, items) else none)

  -- An error response that leaves no trace.
  pub record Refused (s : store.State) (o : Outcome store.State) : Type 0 where
    pub is_error : 400 ≤ o.response.status
    pub same_state : o.state ≡ s
    pub nothing_enqueued : o.enqueued ≡ none

  module _ (wired : Bool) (dist_id : Bytes) (minted : Option Bytes) (now : ℕ)
      (s : store.State) where
    from_store-Accepted :
        (sdk : Batch) (r : Record) (t : store.State)
        → store.create dist_id (some sdk) minted now s ≡ ok (r, t)
        → store_batch store unmarshal format_time wired dist_id sdk minted now s ≡ record {
          response = record {
            status = 201;
            body = content (to_response_invalidation store unmarshal format_time r);
          };
          state = t;
          enqueued = if wired then some (r.id, items_of sdk) else none;
        }
    unfolding store_batch
    from_store-Accepted sdk r t e = ground arith

    Refused-refused : (c : Code) → Refused s (refused s c)
    unfolding refused
    Refused-refused c = record {
      is_error = write_error-status InvalidationXml c;
      same_state = refl;
      nothing_enqueued = refl;
    }

    store_batch-Refused :
        (sdk : Batch) (x : StoreError)
        → store.create dist_id (some sdk) minted now s ≡ err x
        → Refused s (store_batch store unmarshal format_time wired dist_id sdk minted now s)
    unfolding store_batch write_internal_error
    store_batch-Refused sdk x e =
        rw (e, store_batch)
          (record { is_error = omega arith; same_state = refl; nothing_enqueued = refl })

    from_wrapper :
        (bytes : Bytes) (w : BatchXml)
        → dist_id ≢ []
        → unmarshal (take aws_max_body_bytes bytes) ≡ some w
        → check_batch (batch_to_sdk w) ≡ none
        → let o =
            store_batch store unmarshal format_time wired dist_id (batch_to_sdk w) minted now s in
          Accepted wired dist_id (some bytes) minted now s o ⊎ Refused s o
    from_wrapper bytes w ne dec h =
        elim (Result-cases (store.create dist_id (some (batch_to_sdk w)) minted now s)) [
          | inr (x, e) ↦ inr (store_batch-Refused (batch_to_sdk w) x e)
          | inl ((r, t), e) ↦ inl (
              rw (from_store-Accepted (batch_to_sdk w) r t e) (record {
                bytes = bytes;
                wrapper = w;
                items = items_of (batch_to_sdk w);
                record_made = r;
                named = ne;
                body_is = refl;
                decoded = dec;
                acceptable = check_batch_sound w h;
                stored = e;
                answer = refl;
                handed_on = refl;
              }))
        ]

    -- A request is accepted, as a whole: it names a distribution, its body decodes to a batch with a
    -- caller reference and valid paths only, the store has made the record that is answered with
    -- status 201, and the job with its ID and its paths is enqueued if a worker is wired. Or it is
    -- answered with an error status, and then the store is unchanged and nothing is enqueued.
    pub create_cases :
        (body : Option Bytes)
        → let o = create store unmarshal format_time wired dist_id body minted now s in
          Accepted wired dist_id body minted now s o ⊎ Refused s o
    unfolding create
    create_cases none = elim (Bool-cases (equal dist_id [])) [
      | inl e ↦ rw (e, create) (inr (Refused-refused _))
      | inr e ↦ rw (e, create) (inr (Refused-refused _))
    ]
    create_cases (some bytes) = elim (Bool-cases (equal dist_id [])) [
      | inl e ↦ rw (e, create) (inr (Refused-refused _))
      | inr e ↦ elim (Option-cases (unmarshal (take aws_max_body_bytes bytes))) [
        | inl u ↦ rw (e, u, create) (inr (Refused-refused _))
        | inr (w, u) ↦ elim (Option-cases (check_batch (batch_to_sdk w))) [
          | inr (c, k) ↦ rw (e, u, k, create) (inr (Refused-refused _))
          | inl k ↦
              rw (e, u, k, create)
                (from_wrapper bytes w (λ x. ground (arith, equal_iff dist_id [])) u k)
        ]
      ]
    ]

    -- Every acceptable request for which the store makes a record is accepted.
    pub create_complete :
        (bytes : Bytes) (wrapper : BatchXml) (items : List Bytes) (r : Record) (t : store.State)
        → dist_id ≢ []
        → unmarshal (take aws_max_body_bytes bytes) ≡ some wrapper
        → IsAcceptable wrapper items
        → store.create dist_id (some (batch_to_sdk wrapper)) minted now s ≡ ok (r, t)
        → let o = create store unmarshal format_time wired dist_id (some bytes) minted now s in
          (o.response.status ≡ 201)
          × (o.state ≡ t)
          × (o.enqueued ≡ (if wired then some (r.id, items) else none))
    unfolding create
    create_complete bytes w items r t ne u a e =
        let (k, same) = check_batch_complete w items a in
        let named = equal-ne dist_id [] ne in
        rw (named, u, k, create)
          (rw (from_store-Accepted (batch_to_sdk w) r t e) (refl, refl, rw same refl))

-- The worker parses every path of a batch that the handler finds acceptable, and drops none.
pub parse_paths-acceptable :
    (wrapper : BatchXml) (items : List Bytes)
    → IsAcceptable wrapper items
    → parse_paths items ≡ map make_pattern items
parse_paths-acceptable wrapper items a = parse_paths-valid items a.valid_paths
