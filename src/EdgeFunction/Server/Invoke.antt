-- ===== src/EdgeFunction/Server/Invoke.antt =====
-- internal/edgefunc/server.go: the pipeline as a whole.
use cf_local.Prelude.{
  ℕ, ◌≡◌, refl, ◌≢◌, inl, inr, not, Option, none, some, [], arith, Bytes, equal, equal_iff, Result,
  ok, err, if_intro, if_cases,
}
use cf_local.EdgeFunction.{
  InvokeRequest, InvokeResponse, EdgeFunction, EdgeError, CfEvent, CfResponse, event_viewer_request,
  event_origin_request, event_origin_response, event_viewer_response, continue, unsupported_event,
  no_endpoint, marshal_failed, invoke_failed, building, translating,
}
use cf_local.EdgeFunction.Events.{
  request_event, build_viewer_request_event, build_origin_request_event,
}
use cf_local.EdgeFunction.Translate.{
  Decoder, error_response, translate_request_hook, translate_origin_response,
  translate_viewer_response,
}
use cf_local.EdgeFunction.Server.{
  Cache, Resolved, EventHandler, event_handler, call_function, invoke_bound, invoke,
  resolve_function,
}
use cf_local.EdgeFunction.Server.Shape.{
  Shape, failed, passed, mutated, IsRequestHook, AnswerShape, checked-Shape, decode_response-Shape,
  request_answer-Shape, viewer_answer-Shape,
}

module _ (to_lower : Bytes → Bytes) (json : Decoder) (req : InvokeRequest) where
  abbrev HasTarget : Type 0
  HasTarget = (req.request.method ≢ []) × (req.request.uri ≢ [])

  abbrev Built : Result EdgeError CfEvent → Type 0
  Built (ok event) = HasTarget
  Built (err e) = Unit

  request_event-Built :
      (id : Bytes) (response : Option CfResponse) → Built (request_event to_lower id req response)
  unfolding request_event
  request_event-Built id response =
      if_cases Built (equal req.request.method []) (λ e. tt)
        (λ m.
          if_cases Built (equal req.request.uri []) (λ e. tt)
            (λ u. (
              λ e. absurd (ground (arith, equal_iff req.request.method [])),
              λ e. absurd (ground (arith, equal_iff req.request.uri [])),
            )))

  viewer-Built : (id : Bytes) → Built (build_viewer_request_event to_lower id req)
  unfolding build_viewer_request_event
  viewer-Built id =
      if_intro Built (not (equal req.event_type event_viewer_request)) tt
        (request_event-Built id none)

  origin-Built : (id : Bytes) → Built (build_origin_request_event to_lower id req)
  unfolding build_origin_request_event
  origin-Built id =
      if_intro Built (not (equal req.event_type event_origin_request)) tt
        (request_event-Built id none)

  -- A handler whose builder lets the request pass has a translator with well-shaped answers.
  abbrev Sound : EventHandler → Type 0
  Sound h =
      (id out : Bytes) (event : CfEvent)
      → h.builder id req ≡ ok event
      → AnswerShape req (h.translator out req)

  abbrev AllSound : Option EventHandler → Type 0
  AllSound none = Unit
  AllSound (some h) = Sound h

  built : (r : Result EdgeError CfEvent) (event : CfEvent) → Built r → r ≡ ok event → HasTarget
  built (ok e) event b h = b
  built (err e) event b h = cc

  hook_sound :
      (out : Bytes)
      → IsRequestHook req.event_type
      → HasTarget
      → AnswerShape req (translate_request_hook json out req)
  unfolding translate_request_hook
  hook_sound out hook (m, u) =
      checked-Shape json req out _ (request_answer-Shape json req out hook m u)

  event_handler-Sound : AllSound (event_handler to_lower json req.event_type)
  unfolding event_handler translate_origin_response translate_viewer_response
  event_handler-Sound =
      if_cases AllSound (equal req.event_type event_viewer_request)
        (λ a id out event b.
          hook_sound out (inl ((equal_iff req.event_type event_viewer_request).0 a))
            (built (build_viewer_request_event to_lower id req) event (viewer-Built id) b))
        (λ _.
          if_cases AllSound (equal req.event_type event_origin_request)
            (λ a id out event b.
              hook_sound out (inr ((equal_iff req.event_type event_origin_request).0 a))
                (built (build_origin_request_event to_lower id req) event (origin-Built id) b))
            (λ _.
              if_cases AllSound (equal req.event_type event_origin_response)
                (λ a id out event b. checked-Shape json req out _ (
                  decode_response-Shape json req continue out
                    (λ resp. mutated resp ((equal_iff req.event_type event_origin_response).0 a))))
                (λ _.
                  if_cases AllSound (equal req.event_type event_viewer_response)
                    (λ a id out event b. checked-Shape json req out _ (
                      viewer_answer-Shape json req out
                        ((equal_iff req.event_type event_viewer_response).0 a)))
                    (λ _. tt))))

  module _ (marshal : CfEvent → Option Bytes) (rie : Bytes → Bytes → Option Bytes) where
    abbrev FirstShape : InvokeResponse × Cache → Type 0
    FirstShape p = Shape req p.0

    call_function-Shape :
        (h : EventHandler) (fn : EdgeFunction) (id : Bytes)
        → Sound h
        → Shape req (call_function to_lower json marshal rie h fn id req)
    unfolding call_function
    call_function-Shape h fn id sound = go (h.builder id req) refl
      where
        translated :
            (r : Result EdgeError InvokeResponse)
            → AnswerShape req r
            → Shape req (elim r [ err e ↦ error_response (translating e) | ok resp ↦ resp ])
        translated (ok resp) s = s
        translated (err e) s = failed (translating e)

        called :
            (event : CfEvent)
            → h.builder id req ≡ ok event
            → (o : Option Bytes)
            → Shape req (elim o [
              | none ↦ error_response invoke_failed
              | some out ↦ elim (h.translator out req) [
                | err e ↦ error_response (translating e)
                | ok resp ↦ resp
              ]
            ])
        called event e none = failed invoke_failed
        called event e (some out) = translated (h.translator out req) (sound id out event e)

        sent :
            (event : CfEvent)
            → h.builder id req ≡ ok event
            → (o : Option Bytes)
            → Shape req (elim o [
              | none ↦ error_response marshal_failed
              | some payload ↦ elim (rie fn.rie_endpoint payload) [
                | none ↦ error_response invoke_failed
                | some out ↦ elim (h.translator out req) [
                  | err e ↦ error_response (translating e)
                  | ok resp ↦ resp
                ]
              ]
            ])
        sent event e none = failed marshal_failed
        sent event e (some payload) = called event e (rie fn.rie_endpoint payload)

        go :
            (r : Result EdgeError CfEvent)
            → h.builder id req ≡ r
            → Shape req (elim r [
              | err e ↦ error_response (building e)
              | ok event ↦ elim (marshal event) [
                | none ↦ error_response marshal_failed
                | some payload ↦ elim (rie fn.rie_endpoint payload) [
                  | none ↦ error_response invoke_failed
                  | some out ↦ elim (h.translator out req) [
                    | err e ↦ error_response (translating e)
                    | ok resp ↦ resp
                  ]
                ]
              ]
            ])
        go (err x) e = failed (building x)
        go (ok event) e = sent event e (marshal event)

    invoke_bound-Shape :
        (h : EventHandler) (fn : Option EdgeFunction) (id : Bytes)
        → Sound h
        → Shape req (invoke_bound to_lower json marshal rie h fn id req)
    unfolding invoke_bound
    invoke_bound-Shape h none id sound = passed
    invoke_bound-Shape h (some fn) id sound =
        if_intro (Shape req) (equal fn.rie_endpoint []) (failed no_endpoint)
          (call_function-Shape h fn id sound)

    -- Whatever the function, the control plane, the decoders and the cache answer, the reply to njs
    -- is one of these: an error without request and response; a bare continue; for the two request
    -- hooks a request with a method and a URI, or a response in place of it; for origin-response a
    -- response; for viewer-response one with the status and the status text of the original and
    -- without a body.
    pub invoke-Shape :
        (ttl now later : ℕ) (answer : Resolved) (id : Bytes) (cache : Cache)
        → Shape req (invoke to_lower json marshal rie ttl now later answer id req cache).0
    unfolding invoke
    invoke-Shape ttl now later answer id cache =
        go (event_handler to_lower json req.event_type) event_handler-Sound
      where
        go :
            (o : Option EventHandler)
            → AllSound o
            → FirstShape (elim o [
              | none ↦ (error_response unsupported_event, cache)
              | some handler ↦
                  let r =
                    resolve_function ttl now later answer req.distribution_id req.event_type
                      cache in
                  (invoke_bound to_lower json marshal rie handler r.0 id req, r.1)
            ])
        go none s = failed unsupported_event
        go (some h) s = invoke_bound-Shape h _ id s
