-- ===== src/EdgeFunction/Bindings.antt =====
-- internal/api/edgefunc/handler.go: the bindings that the control plane lists for a distribution.
pub mod Found
use cf_local.Prelude.{
  ◌||◌, Option, none, some, List, [], ◌∷◌, ◌++◌, map, ◌==◌, if◌then◌else◌, length, Bytes, codes,
  equal, Dict, lookup,
}
use cf_local.Distribution.{Association, Behavior, CacheBehavior, DistributionConfig}
use cf_local.Nginx.Headers.{deref_string, deref_bool}
use cf_local.EdgeFunction.{EdgeFunction}

-- `strings.Split(arn, ":")`
unfoldable pub split_colons : Bytes → List Bytes
split_colons [] = [] ∷ []
split_colons (c ∷ s) = elim (split_colons s) [
  | [] ↦ [] ∷ []
  | part ∷ parts ↦ if c == b':' then [] ∷ part ∷ parts else (c ∷ part) ∷ parts
]

unfoldable pub endpoint_of : List Bytes → Dict Bytes → Bytes
endpoint_of (_ ∷ _ ∷ _ ∷ _ ∷ _ ∷ kind ∷ name ∷ _) endpoints =
    if equal kind (codes "function")
    then elim (lookup name endpoints) [ none ↦ [] | some endpoint ↦ endpoint ]
    else []
endpoint_of _ endpoints = []

unfoldable pub resolve_rie_endpoint : Bytes → Dict Bytes → Bytes
resolve_rie_endpoint arn endpoints =
    if equal arn [] || length endpoints == 0 then [] else endpoint_of (split_colons arn) endpoints

module _ (endpoints : Dict Bytes) where
  unfoldable pub edge_function : Association → EdgeFunction
  edge_function item = record {
    event_type = item.event_type;
    function_arn = deref_string item.lambda_function_arn;
    include_body = deref_bool item.include_body;
    rie_endpoint = resolve_rie_endpoint (deref_string item.lambda_function_arn) endpoints;
  }

  unfoldable pub append_from_associations :
      List EdgeFunction → Option (List Association) → List EdgeFunction
  append_from_associations out none = out
  append_from_associations out (some items) = out ++ map edge_function items

  -- The loop over CacheBehaviors.
  unfoldable pub append_behaviors : List EdgeFunction → List CacheBehavior → List EdgeFunction
  append_behaviors out [] = out
  append_behaviors out (b ∷ bs) =
      append_behaviors (append_from_associations out b.behavior.lambda_function_associations) bs

  unfoldable pub append_default : List EdgeFunction → Option Behavior → List EdgeFunction
  append_default out none = out
  append_default out (some b) = append_from_associations out b.lambda_function_associations

  unfoldable pub append_items : List EdgeFunction → Option (List CacheBehavior) → List EdgeFunction
  append_items out none = out
  append_items out (some bs) = append_behaviors out bs

  unfoldable pub collect_functions : Option DistributionConfig → List EdgeFunction
  collect_functions none = []
  collect_functions (some d) =
      append_items (append_default [] d.default_cache_behavior) d.cache_behaviors
