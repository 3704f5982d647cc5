-- ===== src/EdgeFunction/Translate.antt =====
-- internal/edgefunc/event.go: what a Lambda function's answer makes of the request. encoding/json is
-- a parameter: one decoder for each type that the source decodes into.
use cf_local.Prelude.{
  not, Option, none, some, List, [], ◌∷◌, if◌then◌else◌, Bytes, codes, equal, Dict, lookup, insert,
  Result, ok, err, ◌>>=◌,
}
use cf_local.Prelude.Numbers.{atoi, trim_space}
use cf_local.EdgeFunction.{
  RawRequest, RawResponse, InvokeRequest, InvokeResponse, Action, continue, short_circuit, error,
  EdgeError, empty_body, decode_failed, no_response, bad_status, lambda_error, CfHeader, CfRequest,
  CfResponse,
}

-- `none` is an error of json.Unmarshal.
pub record Decoder : Type 0 where
  -- errorMessage and errorType
  pub envelope : Bytes → Option (Bytes × Bytes)
  -- The fields of an object, undecoded, and a field that is a string.
  pub object : Bytes → Option (Dict Bytes)
  pub text : Bytes → Option Bytes
  pub cf_request : Bytes → Option CfRequest
  pub cf_response : Bytes → Option CfResponse

abbrev pub header_values : List CfHeader → List Bytes
header_values [] = []
header_values (h ∷ hs) = h.value ∷ header_values hs

-- The casing that the function gave, else the name in the map.
unfoldable pub header_casing : Bytes → List CfHeader → Bytes
header_casing name [] = name
header_casing name (h ∷ hs) = if not (equal h.key []) then h.key else name

unfoldable pub flatten_into : Dict (List CfHeader) → Dict (List Bytes) → Dict (List Bytes)
flatten_into [] out = out
flatten_into ((name, hs) ∷ m) out =
    flatten_into m (insert (header_casing name hs) (header_values hs) out)

unfoldable pub flatten_headers : Dict (List CfHeader) → Dict (List Bytes)
flatten_headers m = flatten_into m []

-- A copy: the lists of the model are values.
unfoldable pub clone_headers : Dict (List Bytes) → Dict (List Bytes)
clone_headers m = m

unfoldable pub flatten_response : CfResponse → Result EdgeError RawResponse
flatten_response resp = elim (atoi (trim_space resp.status)) [
  | none ↦ err (bad_status resp.status)
  | some status ↦ ok (record {
    status = status;
    status_desc = resp.status_description;
    headers = flatten_headers resp.headers;
    body = resp.body;
    body_encoding = resp.body_encoding;
  })
]

-- `if out.X == "" { out.X = original.X }`
unfoldable pub or_original : Bytes → Bytes → Bytes
or_original s original = if equal s [] then original else s

unfoldable pub merged_headers : Dict (List Bytes) → Dict (List CfHeader) → Dict (List Bytes)
merged_headers original [] = clone_headers original
merged_headers original (h ∷ m) = flatten_headers (h ∷ m)

unfoldable pub merge_request : RawRequest → CfRequest → RawRequest
merge_request original modified = record {
  method = or_original modified.method original.method;
  uri = or_original modified.uri original.uri;
  query_string = or_original modified.query_string original.query_string;
  headers = merged_headers original.headers modified.headers;
  client_ip = or_original modified.client_ip original.client_ip;
}

abbrev pub answer : Action → Option RawRequest → Option RawResponse → InvokeResponse
answer action request response = record {
  action = action;
  request = request;
  response = response;
  error = none;
}

abbrev pub error_response : EdgeError → InvokeResponse
error_response e = record { action = error; request = none; response = none; error = some e }

module _ (json : Decoder) where
  unfoldable pub lambda_error_response : Bytes → Option InvokeResponse
  lambda_error_response body = elim (json.envelope body) [
    | none ↦ none
    | some e ↦ if not (equal e.0 []) then some (error_response (lambda_error e.1 e.0)) else none
  ]

  -- The status string of an answer, where it has one that is not empty.
  unfoldable pub status_of : Dict Bytes → Option Bytes
  status_of raw = elim (lookup (codes "status") raw) [
    | none ↦ none
    | some r ↦ elim (json.text r) [
      | none ↦ none
      | some s ↦ if not (equal s []) then some s else none
    ]
  ]

  unfoldable pub decode_request : Bytes → RawRequest → Result EdgeError InvokeResponse
  decode_request body original = elim (json.cf_request body) [
    | none ↦ err decode_failed
    | some modified ↦ ok (answer continue (some (merge_request original modified)) none)
  ]

  -- The answer as a response, under an action.
  unfoldable pub decode_response : Action → Bytes → Result EdgeError InvokeResponse
  decode_response action body = elim (json.cf_response body) [
    | none ↦ err decode_failed
    | some resp ↦ do flat ← flatten_response resp; ok (answer action none (some flat))
  ]

  -- The tests that every translator begins with.
  unfoldable pub checked : Bytes → Result EdgeError InvokeResponse → Result EdgeError InvokeResponse
  checked body rest =
      if equal body []
      then err empty_body
      else elim (lambda_error_response body) [ some resp ↦ ok resp | none ↦ rest ]

  unfoldable pub request_answer : Bytes → RawRequest → Result EdgeError InvokeResponse
  request_answer body original = elim (json.object body) [
    | none ↦ err decode_failed
    | some raw ↦ elim (status_of raw) [
      | some s ↦ decode_response short_circuit body
      | none ↦ decode_request body original
    ]
  ]

  unfoldable pub translate_request_hook : Bytes → InvokeRequest → Result EdgeError InvokeResponse
  translate_request_hook body original = checked body (request_answer body original.request)

  unfoldable pub translate_origin_response : Bytes → InvokeRequest → Result EdgeError InvokeResponse
  translate_origin_response body original = checked body (decode_response continue body)

  unfoldable pub viewer_answer : Bytes → RawResponse → Result EdgeError InvokeResponse
  viewer_answer body resp = elim (json.cf_response body) [
    | none ↦ err decode_failed
    | some modified ↦ ok (
        answer continue none (
          some (record {
            status = resp.status;
            status_desc = resp.status_desc;
            headers = flatten_headers modified.headers;
            body = [];
            body_encoding = [];
          })))
  ]

  unfoldable pub translate_viewer_response : Bytes → InvokeRequest → Result EdgeError InvokeResponse
  translate_viewer_response body original =
      checked body
        (elim original.response [ none ↦ err no_response | some resp ↦ viewer_answer body resp ])
