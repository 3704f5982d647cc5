-- ===== src/EdgeFunction/Server.antt =====
-- internal/edgefunc/server.go: the pipeline behind POST /invoke and its cache of bindings. What the
-- control plane and the function answer are arguments; times are numbers.
pub mod Cache
pub mod Invoke
pub mod Shape
use cf_local.Prelude.{
  ℕ, ◌+◌, ◌*◌, ◌^◌, Bool, true, not, Option, none, some, List, [], ◌∷◌, ltb, if◌then◌else◌, Bytes,
  equal, Dict, lookup, insert, Result, ok, err,
}
use cf_local.EdgeFunction.{
  InvokeRequest, InvokeResponse, EdgeFunction, EdgeError, Action, continue, unsupported_event,
  no_endpoint, marshal_failed, invoke_failed, building, translating, CfEvent, event_viewer_request,
  event_origin_request, event_origin_response, event_viewer_response,
}
use cf_local.EdgeFunction.Events.{
  build_viewer_request_event, build_origin_request_event, build_origin_response_event,
  build_viewer_response_event,
}
use cf_local.EdgeFunction.Translate.{
  Decoder, error_response, translate_request_hook, translate_origin_response,
  translate_viewer_response,
}

-- lookupCacheEntry
pub record Entry : Type 0 where
  pub functions : List EdgeFunction
  pub expires_at : ℕ

abbrev pub Cache : Type 0
Cache = Dict Entry

-- What one call of Resolve answers: `none` is an error.
abbrev pub Resolved : Type 0
Resolved = Option (List EdgeFunction)

abbrev pub default_lookup_ttl : ℕ
default_lookup_ttl = 30 * 10 ^ 9

unfoldable pub find_by_event : List EdgeFunction → Bytes → Option EdgeFunction
find_by_event [] event_type = none
find_by_event (f ∷ fs) event_type =
    if equal f.event_type event_type then some f else find_by_event fs event_type

-- `now.After(entry.expiresAt)`
unfoldable pub is_expired : ℕ → Option Entry → Bool
is_expired now none = true
is_expired now (some entry) = ltb entry.expires_at now

unfoldable pub cached : Option Entry → List EdgeFunction
cached none = []
cached (some entry) = entry.functions

-- The bindings of the distribution: the entry, what the control plane answers, or the old entry
-- where it fails; and the cache behind it. `now` is read again when the entry is made. The look-up
-- and the entry are one step: no other request is between them.
unfoldable pub resolve_functions : ℕ → ℕ → ℕ → Resolved → Bytes → Cache → List EdgeFunction × Cache
resolve_functions ttl now later answer id cache =
    if not (is_expired now (lookup id cache))
    then (cached (lookup id cache), cache)
    else elim answer [
      | none ↦ (cached (lookup id cache), cache)
      | some functions ↦
          (functions, insert id (record { functions = functions; expires_at = later + ttl }) cache)
    ]

unfoldable pub resolve_function :
    ℕ → ℕ → ℕ → Resolved → Bytes → Bytes → Cache → Option EdgeFunction × Cache
resolve_function ttl now later answer id event_type cache =
    let found = resolve_functions ttl now later answer id cache in
    (find_by_event found.0 event_type, found.1)

-- eventHandlers: a builder and a translator.
pub record EventHandler : Type 0 where
  pub builder : Bytes → InvokeRequest → Result EdgeError CfEvent
  pub translator : Bytes → InvokeRequest → Result EdgeError InvokeResponse

abbrev pub continue_response : InvokeResponse
continue_response = record { action = continue; request = none; response = none; error = none }

module _ (to_lower : Bytes → Bytes) (json : Decoder) where
  unfoldable pub event_handler : Bytes → Option EventHandler
  event_handler event_type =
      if equal event_type event_viewer_request
      then some (record {
        builder = build_viewer_request_event to_lower;
        translator = translate_request_hook json;
      })
      else if equal event_type event_origin_request
      then some (record {
        builder = build_origin_request_event to_lower;
        translator = translate_request_hook json;
      })
      else if equal event_type event_origin_response
      then some (record {
        builder = build_origin_response_event to_lower;
        translator = translate_origin_response json;
      })
      else if equal event_type event_viewer_response
      then some (record {
        builder = build_viewer_response_event to_lower;
        translator = translate_viewer_response json;
      })
      else none

  -- json.Marshal and the call of the function: `none` is an error of either.
  module _ (marshal : CfEvent → Option Bytes) (rie : Bytes → Bytes → Option Bytes) where
    unfoldable pub call_function :
        EventHandler → EdgeFunction → Bytes → InvokeRequest → InvokeResponse
    call_function handler fn request_id req = elim (handler.builder request_id req) [
      | err e ↦ error_response (building e)
      | ok event ↦ elim (marshal event) [
        | none ↦ error_response marshal_failed
        | some payload ↦ elim (rie fn.rie_endpoint payload) [
          | none ↦ error_response invoke_failed
          | some out ↦ elim (handler.translator out req) [
            | err e ↦ error_response (translating e)
            | ok resp ↦ resp
          ]
        ]
      ]
    ]

    unfoldable pub invoke_bound :
        EventHandler → Option EdgeFunction → Bytes → InvokeRequest → InvokeResponse
    invoke_bound handler none request_id req = continue_response
    invoke_bound handler (some fn) request_id req =
        if equal fn.rie_endpoint []
        then error_response no_endpoint
        else call_function handler fn request_id req

    unfoldable pub invoke :
        ℕ → ℕ → ℕ → Resolved → Bytes → InvokeRequest → Cache → InvokeResponse × Cache
    invoke ttl now later answer request_id req cache = elim (event_handler req.event_type) [
      | none ↦ (error_response unsupported_event, cache)
      | some handler ↦
          let found =
            resolve_function ttl now later answer req.distribution_id req.event_type cache in
          (invoke_bound handler found.0 request_id req, found.1)
    ]
