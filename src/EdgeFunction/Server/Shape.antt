-- ===== src/EdgeFunction/Server/Shape.antt =====
-- internal/edgefunc/server.go: which answers njs can get from POST /invoke.
use cf_local.Prelude.{
  ◌≡◌, refl, ◌≢◌, ◌⊎◌, inl, inr, not, Option, none, some, [], arith, if◌then◌else◌, Bool-cases,
  Bytes, equal, equal_iff, Dict, Result, ok, err, ◌>>=◌, if_intro,
}
use cf_local.EdgeFunction.{
  InvokeRequest, InvokeResponse, RawRequest, RawResponse, EdgeError, Action, continue,
  short_circuit, CfRequest, event_viewer_request, event_origin_request, event_origin_response,
  event_viewer_response, lambda_error, decode_failed, no_response, CfResponse,
}
use cf_local.EdgeFunction.Translate.{
  Decoder, answer, error_response, or_original, merge_request, lambda_error_response, checked,
  decode_request, decode_response, status_of, flatten_headers, request_answer, flatten_response,
  viewer_answer,
}
use cf_local.EdgeFunction.Server.{continue_response}

-- The hooks on the way to the origin.
abbrev pub IsRequestHook : Bytes → Type 0
IsRequestHook event_type = (event_type ≡ event_viewer_request) ⊎ (event_type ≡ event_origin_request)

pub data Shape (req : InvokeRequest) : InvokeResponse → Type 0 where
  -- An error carries neither a request nor a response, so that njs goes on with what it has.
  failed : (e : EdgeError) → Shape req (error_response e)
  passed : Shape req continue_response
  forwarded :
      (r : RawRequest)
      → IsRequestHook req.event_type
      → r.method ≢ []
      → r.uri ≢ []
      → Shape req (answer continue (some r) none)
  answered :
      (resp : RawResponse)
      → IsRequestHook req.event_type
      → Shape req (answer short_circuit none (some resp))
  mutated :
      (resp : RawResponse)
      → req.event_type ≡ event_origin_response
      → Shape req (answer continue none (some resp))
  -- A viewer response keeps its status, and gets no body.
  viewed :
      (old resp : RawResponse)
      → req.event_type ≡ event_viewer_response
      → req.response ≡ some old
      → resp.status ≡ old.status
      → resp.status_desc ≡ old.status_desc
      → resp.body ≡ []
      → Shape req (answer continue none (some resp))

or_original-ne : (s original : Bytes) → original ≢ [] → or_original s original ≢ []
unfolding or_original
or_original-ne s original h = elim (Bool-cases (equal s [])) [
  | inl e ↦ rw e h
  | inr e ↦ rw e (λ n. absurd (ground (arith, equal_iff s [])))
]

-- A translator's answer has a shape, where there is one.
abbrev pub AnswerShape : InvokeRequest → Result EdgeError InvokeResponse → Type 0
AnswerShape req (ok r) = Shape req r
AnswerShape req (err e) = Unit

abbrev Found : InvokeRequest → Option InvokeResponse → Type 0
Found req none = Unit
Found req (some r) = Shape req r

module _ (json : Decoder) (req : InvokeRequest) where
  lambda_error_response-Shape : (body : Bytes) → Found req (lambda_error_response json body)
  unfolding lambda_error_response
  lambda_error_response-Shape body = go (json.envelope body)
    where
      go :
          (o : Option (Bytes × Bytes))
          → Found req (elim o [
            | none ↦ none
            | some e ↦
                if not (equal e.0 []) then some (error_response (lambda_error e.1 e.0)) else none
          ])
      go none = tt
      go (some e) = if_intro (Found req) (not (equal e.0 [])) (failed (lambda_error e.1 e.0)) tt

  pub checked-Shape :
      (body : Bytes) (rest : Result EdgeError InvokeResponse)
      → AnswerShape req rest
      → AnswerShape req (checked json body rest)
  unfolding checked
  checked-Shape body rest h =
      if_intro (AnswerShape req) (equal body []) tt
        (go (lambda_error_response json body) (lambda_error_response-Shape body))
    where
      go :
          (o : Option InvokeResponse)
          → Found req o
          → AnswerShape req (elim o [ some resp ↦ ok resp | none ↦ rest ])
      go none f = h
      go (some r) f = f

  pub decode_response-Shape :
      (action : Action) (body : Bytes)
      → ((resp : RawResponse) → Shape req (answer action none (some resp)))
      → AnswerShape req (decode_response json action body)
  unfolding decode_response
  decode_response-Shape action body h = go (json.cf_response body)
    where
      flat :
          (r : Result EdgeError RawResponse)
          → AnswerShape req (r >>= (λ f. ok (answer action none (some f))))
      flat (ok f) = h f
      flat (err e) = tt

      go :
          (o : Option CfResponse)
          → AnswerShape req (elim o [
            | none ↦ err decode_failed
            | some resp ↦ flatten_response resp >>= (λ f. ok (answer action none (some f)))
          ])
      go none = tt
      go (some resp) = flat (flatten_response resp)

  pub request_answer-Shape :
      (body : Bytes)
      → IsRequestHook req.event_type
      → req.request.method ≢ []
      → req.request.uri ≢ []
      → AnswerShape req (request_answer json body req.request)
  unfolding request_answer decode_request merge_request
  request_answer-Shape body hook m u = go (json.object body)
    where
      merged :
          (o : Option CfRequest)
          → AnswerShape req (elim o [
            | none ↦ err decode_failed
            | some modified ↦ ok (answer continue (some (merge_request req.request modified)) none)
          ])
      merged none = tt
      merged (some modified) =
          forwarded (merge_request req.request modified) hook
            (or_original-ne modified.method req.request.method m)
            (or_original-ne modified.uri req.request.uri u)

      status :
          (o : Option Bytes)
          → AnswerShape req (elim o [
            | some s ↦ decode_response json short_circuit body
            | none ↦ decode_request json body req.request
          ])
      status none = merged (json.cf_request body)
      status (some s) = decode_response-Shape short_circuit body (λ resp. answered resp hook)

      go :
          (o : Option (Dict Bytes))
          → AnswerShape req (elim o [
            | none ↦ err decode_failed
            | some raw ↦ elim (status_of json raw) [
              | some s ↦ decode_response json short_circuit body
              | none ↦ decode_request json body req.request
            ]
          ])
      go none = tt
      go (some raw) = status (status_of json raw)

  pub viewer_answer-Shape :
      (body : Bytes)
      → req.event_type ≡ event_viewer_response
      → AnswerShape req
          (elim req.response [ none ↦ err no_response | some resp ↦ viewer_answer json body resp ])
  unfolding viewer_answer
  viewer_answer-Shape body e = go req.response refl
    where
      decoded :
          (old : RawResponse)
          → req.response ≡ some old
          → (o : Option CfResponse)
          → AnswerShape req (elim o [
            | none ↦ err decode_failed
            | some modified ↦ ok (
                answer continue none (
                  some (record {
                    status = old.status;
                    status_desc = old.status_desc;
                    headers = flatten_headers modified.headers;
                    body = [];
                    body_encoding = [];
                  })))
          ])
      decoded old h none = tt
      decoded old h (some modified) = viewed old _ e h refl refl refl

      go :
          (o : Option RawResponse)
          → req.response ≡ o
          → AnswerShape req
              (elim o [ none ↦ err no_response | some resp ↦ viewer_answer json body resp ])
      go none h = tt
      go (some old) h = decoded old h (json.cf_response body)
