-- ===== src/EdgeFunction/Tests.antt =====
-- Runs of the bridge, and the theorems at concrete inputs.
use cf_local.Prelude.{
  ◌+◌, ◌-◌, ◌/◌, ◌≡◌, refl, ◌≢◌, true, false, Option, none, some, [], ◌∷◌, map, arith,
  if◌then◌else◌, within, here, Bytes, codes, equal, Dict, lookup, delete, insert, ok,
}
use cf_local.Distribution.{Behavior, DistributionConfig}
use cf_local.Nginx.Conf.Views.{has_association}
use cf_local.EdgeFunction.{
  RawRequest, InvokeRequest, InvokeResponse, EdgeFunction, CfHeader, CfRequest, CfResponse, CfEvent,
  Action, continue, event_viewer_request, event_origin_request,
}
use cf_local.EdgeFunction.Events.{normalise_headers_for_event}
use cf_local.EdgeFunction.Translate.{Decoder}
use cf_local.EdgeFunction.Server.{
  Entry, Cache, Resolved, find_by_event, is_expired, resolve_function, invoke,
}
use cf_local.EdgeFunction.Server.Cache.{resolve_function-again}
use cf_local.EdgeFunction.Server.Shape.{Shape}
use cf_local.EdgeFunction.Server.Invoke.{invoke-Shape}
use cf_local.EdgeFunction.Bindings.{collect_functions, resolve_rie_endpoint}
use cf_local.EdgeFunction.Bindings.Found.{hook_bound}

-- A stand-in for strings.ToLower that knows ASCII.
abbrev to_lower : Bytes → Bytes
to_lower s = map (λ c. if within b'A' b'Z' c then c + 32 else c) s

abbrev fn : EdgeFunction
fn = record {
  event_type = event_viewer_request;
  function_arn = codes "a";
  include_body = false;
  rie_endpoint = codes "http://f";
}

abbrev req : InvokeRequest
req = record {
  distribution_id = codes "E1";
  event_type = event_viewer_request;
  request = record {
    method = codes "GET";
    uri = codes "/a";
    query_string = codes "x=1";
    headers = (codes "x-a", codes "1" ∷ codes "2" ∷ []) ∷ [];
    client_ip = codes "::1";
  };
  response = none;
}

-- A function that rewrites the URI.
abbrev json : Decoder
json = record {
  envelope = λ b. some ([], []);
  object = λ b. some [];
  text = λ b. none;
  cf_request = λ b.
      some
        (record { client_ip = []; headers = []; method = []; query_string = []; uri = codes "/b" });
  cf_response = λ b. none;
}

abbrev marshal : CfEvent → Option Bytes
marshal event = some (codes "{}")

abbrev rie : Bytes → Bytes → Option Bytes
rie endpoint payload = some payload

test_headers :
    normalise_headers_for_event to_lower ((codes "X-a", codes "1" ∷ []) ∷ [])
    ≡ (codes "x-a", record { key = codes "X-A"; value = codes "1" } ∷ []) ∷ []
unfolding cf_local.EdgeFunction.Events.add_headers cf_local.EdgeFunction.Events.bucket
    cf_local.EdgeFunction.Events.canonical_header_key cf_local.EdgeFunction.Events.capitalize
    cf_local.EdgeFunction.Events.is_field_byte normalise_headers_for_event cf_local.Prelude.delete
    cf_local.Prelude.insert lookup cf_local.Prelude.equal
test_headers = refl

test_invoke :
    (invoke to_lower json marshal rie 30 0 0 (some (fn ∷ [])) (codes "id") req []).0 ≡ record {
      action = continue;
      request = some (record {
        method = codes "GET";
        uri = codes "/b";
        query_string = codes "x=1";
        headers = (codes "x-a", codes "1" ∷ codes "2" ∷ []) ∷ [];
        client_ip = codes "::1";
      });
      response = none;
      error = none;
    }
unfolding cf_local.EdgeFunction.Events.add_headers cf_local.EdgeFunction.Events.bucket
    cf_local.EdgeFunction.Events.build_origin_request_event
    cf_local.EdgeFunction.Events.build_origin_response_event
    cf_local.EdgeFunction.Events.build_viewer_request_event
    cf_local.EdgeFunction.Events.build_viewer_response_event
    cf_local.EdgeFunction.Events.canonical_header_key cf_local.EdgeFunction.Events.capitalize
    cf_local.EdgeFunction.Events.distribution_domain_name
    cf_local.EdgeFunction.Events.event_response_from_snapshot
    cf_local.EdgeFunction.Events.is_field_byte cf_local.EdgeFunction.Events.make_event
    normalise_headers_for_event cf_local.EdgeFunction.Events.request_event
    cf_local.EdgeFunction.Events.response_event cf_local.EdgeFunction.Server.cached
    cf_local.EdgeFunction.Server.call_function cf_local.EdgeFunction.Server.event_handler
    find_by_event invoke cf_local.EdgeFunction.Server.invoke_bound is_expired resolve_function
    cf_local.EdgeFunction.Server.resolve_functions cf_local.EdgeFunction.Translate.checked
    cf_local.EdgeFunction.Translate.clone_headers cf_local.EdgeFunction.Translate.decode_request
    cf_local.EdgeFunction.Translate.decode_response cf_local.EdgeFunction.Translate.flatten_headers
    cf_local.EdgeFunction.Translate.flatten_into cf_local.EdgeFunction.Translate.flatten_response
    cf_local.EdgeFunction.Translate.header_casing
    cf_local.EdgeFunction.Translate.lambda_error_response
    cf_local.EdgeFunction.Translate.merge_request cf_local.EdgeFunction.Translate.merged_headers
    cf_local.EdgeFunction.Translate.or_original cf_local.EdgeFunction.Translate.request_answer
    cf_local.EdgeFunction.Translate.status_of
    cf_local.EdgeFunction.Translate.translate_origin_response
    cf_local.EdgeFunction.Translate.translate_request_hook
    cf_local.EdgeFunction.Translate.translate_viewer_response
    cf_local.EdgeFunction.Translate.viewer_answer cf_local.Prelude.Format.decimal
    cf_local.Prelude.Format.decimal_int cf_local.Prelude.delete cf_local.Prelude.insert lookup
    cf_local.Prelude.Numbers.atoi cf_local.Prelude.Numbers.digits_value
    cf_local.Prelude.Numbers.negative cf_local.Prelude.Numbers.positive
    cf_local.Prelude.Numbers.trim_space cf_local.Prelude.Numbers.unsigned_value
    cf_local.Prelude.Runes.decode_rune cf_local.Prelude.equal
test_invoke = refl

invoke-Shape_example :
    Shape req (invoke to_lower json marshal rie 30 0 0 (some (fn ∷ [])) (codes "id") req []).0
invoke-Shape_example =
    invoke-Shape to_lower json req marshal rie 30 0 0 (some (fn ∷ [])) (codes "id") []

no_entry : is_expired 0 (lookup (codes "E1") []) ≡ true
unfolding is_expired lookup cf_local.Prelude.equal
no_entry = refl

resolve_function-again_example :
    let after = (resolve_function 30 0 1 (some (fn ∷ [])) (codes "E1") event_viewer_request []).1 in
    (resolve_function 30 20 20 none (codes "E1") event_origin_request after
      ≡ (find_by_event (fn ∷ []) event_origin_request, after))
    × ((j : Bytes) → codes "E1" ≢ j → lookup j after ≡ lookup j [])
resolve_function-again_example =
    resolve_function-again 30 0 1 20 20 (fn ∷ []) none (codes "E1") event_viewer_request
      event_origin_request [] no_entry (omega arith)

abbrev behavior : Behavior
behavior = record {
  target_origin_id = some (codes "web");
  cache_policy_id = some (codes "p");
  response_headers_policy_id = none;
  lambda_function_associations = some (
      record {
        event_type = event_viewer_request;
        lambda_function_arn = some (codes "arn:aws:lambda:us-east-1:0:function:auth:1");
        include_body = none;
      }
      ∷ []);
}

abbrev site : DistributionConfig
site = record {
  caller_reference = none;
  enabled = some true;
  origins = none;
  cache_behaviors = none;
  default_cache_behavior = some behavior;
}

abbrev endpoints : Dict Bytes
endpoints = (codes "auth", codes "http://auth:8080") ∷ []

test_endpoint :
    resolve_rie_endpoint (codes "arn:aws:lambda:us-east-1:0:function:auth:1") endpoints
    ≡ codes "http://auth:8080"
unfolding cf_local.EdgeFunction.Bindings.endpoint_of resolve_rie_endpoint
    cf_local.EdgeFunction.Bindings.split_colons lookup cf_local.Prelude.equal
test_endpoint = refl

hooked : has_association event_viewer_request behavior.lambda_function_associations ≡ true
unfolding has_association cf_local.Prelude.equal
hooked = refl

hook_bound_example :
    (f : EdgeFunction) × (find_by_event
        (collect_functions endpoints (some site))
        event_viewer_request
      ≡ some f)
    × (f.event_type ≡ event_viewer_request)
unfolding cf_local.Nginx.Conf.Views.items_of
hook_bound_example =
    hook_bound event_viewer_request endpoints site behavior (ok (codes "/"), behavior) refl
      (here refl) hooked
