-- ===== src/Xml/Codes.antt =====
-- internal/api/xml/codes.go and error.go: AWS error codes, their HTTP statuses, and responses. The
-- message texts, request IDs and the XML encoding of a response are left out.
use cf_local.Prelude.{
  ℕ, ◌≤◌, ◌<◌, ◌≡◌, refl, ◌⊎◌, inl, inr, ◌&&◌, [], arith, ltb, leb, if◌then◌else◌, Bytes, codes,
}

pub data Code : Type 0 where
  no_such_cache_policy no_such_distribution no_such_invalidation : Code
  no_such_origin_request_policy no_such_response_headers_policy : Code
  cache_policy_already_exists distribution_already_exists : Code
  origin_request_policy_already_exists response_headers_policy_already_exists : Code
  entity_already_exists : Code
  invalid_argument malformed_xml illegal_update : Code
  invalid_if_match_version precondition_failed : Code
  internal_error : Code
  unregistered : Bytes → Code

unfoldable pub status_for_code : Code → ℕ
status_for_code no_such_cache_policy = 404
status_for_code no_such_distribution = 404
status_for_code no_such_invalidation = 404
status_for_code no_such_origin_request_policy = 404
status_for_code no_such_response_headers_policy = 404
status_for_code cache_policy_already_exists = 409
status_for_code distribution_already_exists = 409
status_for_code origin_request_policy_already_exists = 409
status_for_code response_headers_policy_already_exists = 409
status_for_code entity_already_exists = 409
status_for_code invalid_argument = 400
status_for_code malformed_xml = 400
status_for_code illegal_update = 400
status_for_code invalid_if_match_version = 412
status_for_code precondition_failed = 412
status_for_code internal_error = 500
status_for_code (unregistered c) = 500

unfoldable pub err_type : ℕ → Bytes
err_type status =
    if leb 400 status && ltb status 500
    then codes "Sender"
    else if leb 500 status
    then codes "Receiver"
    else []

-- The error envelope, or a body of the handler's own.
pub data Body (B : Type 0) : Type 0 where
  error_body : Bytes → Code → Body B
  content : B → Body B
  no_content : Body B

pub record Response (B : Type 0) : Type 0 where
  pub status : ℕ
  pub body : Body B

unfoldable pub write_error : {B : Type 0} → Code → Response B
unfolding status_for_code err_type
write_error c = record {
  status = status_for_code c;
  body = error_body (err_type (status_for_code c)) c;
}

unfoldable pub write_internal_error : {B : Type 0} → Response B
unfolding write_error
write_internal_error = write_error internal_error

-- Every error is a client's or the server's: 5xx, "Receiver", for an internal error and for codes
-- that are not registered, and 4xx, "Sender", for every other code.
pub write_error_type :
    {B : Type 0} (c : Code)
    → let r : Response B = write_error c in
      ((c ≡ internal_error) ⊎ ((s : Bytes) × (c ≡ unregistered s)))
        × (r ≡ record { status = 500; body = error_body (codes "Receiver") c })
      ⊎ (400 ≤ r.status) × (r.status < 500) × (r.body ≡ error_body (codes "Sender") c)
unfolding write_error
write_error_type internal_error = inl (inl refl, refl)
write_error_type (unregistered s) = inl (inr (s, refl), refl)
write_error_type no_such_cache_policy = inr (omega arith, omega arith, refl)
write_error_type _ = inr (omega arith, omega arith, refl)

-- The error responses have no other statuses than these.
pub write_error-status : (B : Type 0) (c : Code) → 400 ≤ (write_error {B = B} c).status
unfolding write_error
write_error-status B internal_error = omega arith
write_error-status B _ = omega arith
