-- ===== src/EdgeFunction.antt =====
-- internal/edgefunc: the bridge to Lambda@Edge. Header maps are association lists; a nil map is an
-- empty one. `strings.ToLower` is the parameter `to_lower`.
pub mod Bindings
pub mod Events
pub mod Server
pub mod Translate
mod Tests
use cf_local.Prelude.{◌-◌, Bool, Option, List, Bytes, codes, Dict}
use cf_local.Prelude.Int.{ℤ}

-- InvokeRawRequest
pub record RawRequest : Type 0 where
  pub method : Bytes
  pub uri : Bytes
  pub query_string : Bytes
  pub headers : Dict (List Bytes)
  pub client_ip : Bytes

-- InvokeRawResponse
pub record RawResponse : Type 0 where
  pub status : ℤ
  pub status_desc : Bytes
  pub headers : Dict (List Bytes)
  pub body : Bytes
  pub body_encoding : Bytes

pub record InvokeRequest : Type 0 where
  pub distribution_id : Bytes
  pub event_type : Bytes
  pub request : RawRequest
  pub response : Option RawResponse

pub data Action : Type 0 where
  continue short_circuit error : Action

-- The error texts, with what they name.
pub data EdgeError : Type 0 where
  unsupported_event no_endpoint no_method no_uri no_response : EdgeError
  marshal_failed invoke_failed empty_body decode_failed : EdgeError
  bad_status : Bytes → EdgeError
  -- The type and the message of a Lambda error.
  lambda_error : Bytes → Bytes → EdgeError
  building translating : EdgeError → EdgeError

pub record InvokeResponse : Type 0 where
  pub action : Action
  pub request : Option RawRequest
  pub response : Option RawResponse
  pub error : Option EdgeError

pub record EdgeFunction : Type 0 where
  pub event_type : Bytes
  pub function_arn : Bytes
  pub include_body : Bool
  pub rie_endpoint : Bytes

abbrev pub event_viewer_request : Bytes
event_viewer_request = codes "viewer-request"

abbrev pub event_origin_request : Bytes
event_origin_request = codes "origin-request"

abbrev pub event_origin_response : Bytes
event_origin_response = codes "origin-response"

abbrev pub event_viewer_response : Bytes
event_viewer_response = codes "viewer-response"

-- CFHeader, CloudFrontRequest, CloudFrontResponse, CloudFrontConfig and CloudFrontPayload. An event
-- has one record, which is the event here.
pub record CfHeader : Type 0 where
  pub key : Bytes
  pub value : Bytes

pub record CfRequest : Type 0 where
  pub client_ip : Bytes
  pub headers : Dict (List CfHeader)
  pub method : Bytes
  pub query_string : Bytes
  pub uri : Bytes

pub record CfResponse : Type 0 where
  pub status : Bytes
  pub status_description : Bytes
  pub headers : Dict (List CfHeader)
  pub body : Bytes
  pub body_encoding : Bytes

pub record CfConfig : Type 0 where
  pub distribution_domain_name : Bytes
  pub distribution_id : Bytes
  pub event_type : Bytes
  pub request_id : Bytes

pub record CfEvent : Type 0 where
  pub config : CfConfig
  pub request : CfRequest
  pub response : Option CfResponse
