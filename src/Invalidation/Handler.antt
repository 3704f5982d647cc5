-- ===== src/Invalidation/Handler.antt =====
-- internal/api/invalidation/aws_handler.go, with the request and response shapes of
-- internal/api/xml/invalidation.go and invalidation_convert.go. The store is the interface `Store`
-- of the source; `xml.Unmarshal` and `time.Format` are parameters.
pub mod Pages
pub mod Walk
pub mod Create
pub mod Bolt
use cf_local.Prelude.{
  ℕ, ◌-◌, ◌%◌, ◌^◌, ◌≡◌, ◌↔◌, Bool, true, false, ◌||◌, Option, none, some, List, [], ◌∷◌, ◌==◌,
  if◌then◌else◌, length, take, Bytes, equal, Result, ok, err,
}
use cf_local.Prelude.Int.{ℤ, pos, negsuc}
use cf_local.Prelude.Sort.{In}
use cf_local.Xml.Codes.{
  Code, Response, Body, content, write_error, write_internal_error, invalid_argument, malformed_xml,
  no_such_invalidation,
}
use cf_local.Invalidation.Matcher.{PathError, parse_pattern}
use cf_local.Invalidation.Store.{Batch, Paths, Record, StoreError, not_found}

abbrev pub aws_max_body_bytes : ℕ
aws_max_body_bytes = 2 ^ 20

abbrev pub list_max_items_default : ℕ
list_max_items_default = 100

abbrev pub list_max_items_cap : ℕ
list_max_items_cap = 100

-- The XML wrappers. `Quantity` of a request is read and not used.
pub record BatchXml : Type 0 where
  pub caller_reference : Bytes
  pub paths : Option (List Bytes)

pub record PathsXml : Type 0 where
  pub items : List Bytes
  pub quantity : ℕ

pub record BatchResponse : Type 0 where
  pub caller_reference : Bytes
  pub paths : Option PathsXml

pub record InvalidationXml : Type 0 where
  pub id : Bytes
  pub status : Bytes
  pub create_time : Bytes
  pub invalidation_batch : Option BatchResponse

pub record SummaryXml : Type 0 where
  pub id : Bytes
  pub status : Bytes
  pub create_time : Bytes

pub record ListXml : Type 0 where
  pub marker : Bytes
  pub max_items : ℕ
  pub is_truncated : Bool
  pub next_marker : Bytes
  pub items : List SummaryXml
  pub quantity : ℕ

-- `Paths.toSDK`: int32(len), as a bit pattern.
unfoldable pub paths_to_sdk : List Bytes → Paths
paths_to_sdk items = record { quantity = some (length items % 2 ^ 32); items = items }

-- `InvalidationBatch.ToSDK`
unfoldable pub batch_to_sdk : BatchXml → Batch
unfolding paths_to_sdk
batch_to_sdk b = record {
  caller_reference = some b.caller_reference;
  paths = elim b.paths [ none ↦ none | some items ↦ some (paths_to_sdk items) ];
}

-- `FromSDKInvalidationBatch`
unfoldable pub batch_from_sdk : Option Batch → Option BatchResponse
batch_from_sdk none = none
batch_from_sdk (some b) = some (record {
  caller_reference = elim b.caller_reference [ none ↦ [] | some c ↦ c ];
  paths = elim b.paths [
    | none ↦ none
    | some p ↦ some (record { items = p.items; quantity = length p.items })
  ];
})

-- The interface `Store`, with what its comments promise of `Create`, `Get` and `List`. `minted`
-- and `now` are the identifier and the clock that `Create` meets.
pub record Store : Type 1 where
  pub State : Type 0
  pub IsValid : State → Type 0
  pub create : Bytes → Option Batch → Option Bytes → ℕ → State → Result StoreError (Record × State)
  pub get : Bytes → Bytes → State → Result StoreError Record
  pub list : Bytes → State → List Record
  pub get-create :
      (distribution_id : Bytes) (batch : Option Batch) (minted : Option Bytes) (now : ℕ) (s : State)
      (r : Record) (t : State)
      → IsValid s
      → create distribution_id batch minted now s ≡ ok (r, t)
      → IsValid t × (get distribution_id r.id t ≡ ok r) × (r.batch ≡ batch) × (minted ≡ some r.id)
  pub list_iff :
      (distribution_id : Bytes) (s : State) (r : Record)
      → IsValid s
      → In r (list distribution_id s) ↔ (get distribution_id r.id s ≡ ok r)

-- The loop over the paths: whether one is refused.
unfoldable pub any_refused : List Bytes → Bool
any_refused [] = false
any_refused (p ∷ rest) = elim (parse_pattern p) [ err _ ↦ true | ok _ ↦ any_refused rest ]

-- What a request leaves behind: the response, the store, and the call of `EnqueueFn`.
pub record Outcome (S : Type 0) : Type 0 where
  pub response : Response InvalidationXml
  pub state : S
  pub enqueued : Option (Bytes × List Bytes)

-- The checks of `Create` on the decoded batch, in order; `some` is the code of the refusal.
unfoldable pub check_batch : Batch → Option Code
check_batch sdk = elim sdk.caller_reference [
  | none ↦ some invalid_argument
  | some c ↦ if equal c [] then some invalid_argument else elim sdk.paths [
    | none ↦ some invalid_argument
    | some p ↦ if length p.items == 0 || any_refused p.items then some invalid_argument else none
  ]
]

unfoldable pub items_of : Batch → List Bytes
items_of sdk = elim sdk.paths [ none ↦ [] | some p ↦ p.items ]

unfoldable pub refused : {S : Type 0} → S → Code → Outcome S
refused s c = record { response = write_error c; state = s; enqueued = none }

module _ (store : Store) (unmarshal : Bytes → Option BatchXml) (format_time : ℕ → Bytes) where
  unfoldable pub to_response_invalidation : Record → InvalidationXml
  unfolding batch_from_sdk
  to_response_invalidation r = record {
    id = r.id;
    status = r.status;
    create_time = format_time r.create_time;
    invalidation_batch = batch_from_sdk r.batch;
  }

  -- From the store call on. `wired` says that `EnqueueFn` is not nil.
  unfoldable pub store_batch :
      Bool → Bytes → Batch → Option Bytes → ℕ → store.State → Outcome store.State
  unfolding to_response_invalidation
  store_batch wired dist_id sdk minted now s = elim (store.create dist_id (some sdk) minted now s) [
    | err _ ↦ record { response = write_internal_error; state = s; enqueued = none }
    | ok (r, t) ↦ record {
      response = record { status = 201; body = content (to_response_invalidation r) };
      state = t;
      enqueued = if wired then some (r.id, items_of sdk) else none;
    }
  ]

  -- `Create`. `body` is what reading the request body gives, without the limit, or none at an error.
  unfoldable pub create :
      Bool → Bytes → Option Bytes → Option Bytes → ℕ → store.State → Outcome store.State
  create wired dist_id body minted now s =
      if equal dist_id [] then refused s invalid_argument else elim body [
        | none ↦ refused s invalid_argument
        | some bytes ↦ elim (unmarshal (take aws_max_body_bytes bytes)) [
          | none ↦ refused s malformed_xml
          | some wrapper ↦ elim (check_batch (batch_to_sdk wrapper)) [
            | some c ↦ refused s c
            | none ↦ store_batch wired dist_id (batch_to_sdk wrapper) minted now s
          ]
        ]
      ]

  -- `Get`
  unfoldable pub get : Bytes → Bytes → store.State → Response InvalidationXml
  unfolding to_response_invalidation
  get dist_id id s =
      if equal dist_id [] || equal id []
      then write_error invalid_argument
      else elim (store.get dist_id id s) [
        | ok r ↦ record { status = 200; body = content (to_response_invalidation r) }
        | err e ↦ elim e [ not_found ↦ write_error no_such_invalidation | _ ↦ write_internal_error ]
      ]
