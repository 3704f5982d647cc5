-- ===== src/Distribution.antt =====
-- The SDK's distribution configuration: the fields that cf-local reads. A nil pointer is `none`;
-- the SDK's pairs of a quantity and items are the items.
pub mod Store
pub mod Tests
use cf_local.Prelude.{Bool, Option, List, Bytes}
use cf_local.Prelude.Int.{ℤ}

-- types.Origin
pub record Origin : Type 0 where
  pub id : Option Bytes
  pub domain_name : Option Bytes
  -- CustomOriginConfig, of which only HTTPPort is read.
  pub custom_origin_config : Option (Option ℤ)

-- types.LambdaFunctionAssociation
pub record Association : Type 0 where
  pub event_type : Bytes
  pub lambda_function_arn : Option Bytes
  pub include_body : Option Bool

-- types.DefaultCacheBehavior
pub record Behavior : Type 0 where
  pub target_origin_id : Option Bytes
  pub cache_policy_id : Option Bytes
  pub response_headers_policy_id : Option Bytes
  pub lambda_function_associations : Option (List Association)

-- types.CacheBehavior: the same fields behind a path pattern.
pub record CacheBehavior : Type 0 where
  pub path_pattern : Option Bytes
  pub behavior : Behavior

-- types.DistributionConfig
pub record DistributionConfig : Type 0 where
  pub caller_reference : Option Bytes
  pub enabled : Option Bool
  pub origins : Option (List Origin)
  pub cache_behaviors : Option (List CacheBehavior)
  pub default_cache_behavior : Option Behavior
