-- ===== src/EdgeFunction/Events.antt =====
-- internal/edgefunc/event.go: the events that Lambda functions receive. The request id is drawn at
-- random in the source and is an argument here.
use cf_local.Prelude.{
  ℕ, ◌+◌, ◌-◌, Bool, true, not, ◌&&◌, ◌||◌, Option, none, some, List, [], ◌∷◌, ◌++◌, map, ◌==◌,
  if◌then◌else◌, within, all, Bytes, codes, equal, Dict, lookup, insert, Result, ok, err,
}
use cf_local.Prelude.Format.{decimal_int}
use cf_local.EdgeFunction.{
  RawResponse, InvokeRequest, EdgeError, unsupported_event, no_method, no_uri, no_response,
  CfHeader, CfResponse, CfEvent, event_viewer_request, event_origin_request, event_origin_response,
  event_viewer_response,
}

-- http.CanonicalHeaderKey: a name with a byte that no header name has stays as it is.
unfoldable pub is_field_byte : ℕ → Bool
is_field_byte c =
    within b'a' b'z' c
    || within b'A' b'Z' c
    || within b'0' b'9' c
    || c == b'!'
    || within 35 39 c
    || c == b'*'
    || c == b'+'
    || c == b'-'
    || c == b'.'
    || c == b'^'
    || c == b'_'
    || c == b'`'
    || c == b'|'
    || c == b'~'

unfoldable pub capitalize : Bool → Bytes → Bytes
capitalize upper [] = []
capitalize upper (c ∷ s) =
    let d =
      if upper && within b'a' b'z' c
      then c - 32
      else if not upper && within b'A' b'Z' c
      then c + 32
      else c in
    d ∷ capitalize (c == b'-') s

unfoldable pub canonical_header_key : Bytes → Bytes
canonical_header_key s = if all is_field_byte s then capitalize true s else s

-- `bucket`: what stands under the name in the map.
unfoldable pub bucket : Bytes → Dict (List CfHeader) → List CfHeader
bucket name m = elim (lookup name m) [ none ↦ [] | some hs ↦ hs ]

module _ (to_lower : Bytes → Bytes) where
  -- The loop over the headers.
  unfoldable pub add_headers : Dict (List Bytes) → Dict (List CfHeader) → Dict (List CfHeader)
  add_headers [] out = out
  add_headers ((name, vs) ∷ m) out =
      let added =
        bucket (to_lower name) out
        ++ map (λ v. record { key = canonical_header_key name; value = v }) vs in
      add_headers m (insert (to_lower name) added out)

  unfoldable pub normalise_headers_for_event : Dict (List Bytes) → Dict (List CfHeader)
  normalise_headers_for_event m = add_headers m []

  unfoldable pub distribution_domain_name : Bytes → Bytes
  distribution_domain_name id = to_lower id ++ codes ".cloudfront.local"

  unfoldable pub event_response_from_snapshot : RawResponse → CfResponse
  event_response_from_snapshot resp = record {
    status = decimal_int resp.status;
    status_description = resp.status_desc;
    headers = normalise_headers_for_event resp.headers;
    body = [];
    body_encoding = [];
  }

  -- The event that the builders put together, behind their guards.
  unfoldable pub make_event : Bytes → InvokeRequest → Option CfResponse → CfEvent
  make_event request_id req response = record {
    config = record {
      distribution_domain_name = distribution_domain_name req.distribution_id;
      distribution_id = req.distribution_id;
      event_type = req.event_type;
      request_id = request_id;
    };
    request = record {
      client_ip = req.request.client_ip;
      headers = normalise_headers_for_event req.request.headers;
      method = req.request.method;
      query_string = req.request.query_string;
      uri = req.request.uri;
    };
    response = response;
  }

  unfoldable pub request_event :
      Bytes → InvokeRequest → Option CfResponse → Result EdgeError CfEvent
  request_event request_id req response =
      if equal req.request.method []
      then err no_method
      else if equal req.request.uri []
      then err no_uri
      else ok (make_event request_id req response)

  unfoldable pub build_viewer_request_event : Bytes → InvokeRequest → Result EdgeError CfEvent
  build_viewer_request_event request_id req =
      if not (equal req.event_type event_viewer_request)
      then err unsupported_event
      else request_event request_id req none

  unfoldable pub build_origin_request_event : Bytes → InvokeRequest → Result EdgeError CfEvent
  build_origin_request_event request_id req =
      if not (equal req.event_type event_origin_request)
      then err unsupported_event
      else request_event request_id req none

  unfoldable pub response_event : Bytes → InvokeRequest → Result EdgeError CfEvent
  response_event request_id req = elim req.response [
    | none ↦ err no_response
    | some resp ↦ request_event request_id req (some (event_response_from_snapshot resp))
  ]

  unfoldable pub build_origin_response_event : Bytes → InvokeRequest → Result EdgeError CfEvent
  build_origin_response_event request_id req =
      if not (equal req.event_type event_origin_response)
      then err unsupported_event
      else response_event request_id req

  unfoldable pub build_viewer_response_event : Bytes → InvokeRequest → Result EdgeError CfEvent
  build_viewer_response_event request_id req =
      if not (equal req.event_type event_viewer_response)
      then err unsupported_event
      else response_event request_id req
