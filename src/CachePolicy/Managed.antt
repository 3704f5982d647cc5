-- ===== src/CachePolicy/Managed.antt =====
-- internal/api/cachepolicy/managed.go: the managed policies, which are seeded at startup.
use cf_local.Prelude.{
  ℕ, ◌*◌, ◌^◌, true, false, Option, none, some, List, [], ◌∷◌, length, Bytes, codes,
}
use cf_local.Validate.Policy.{
  Section, CachePolicyConfig, behavior_none, behavior_whitelist, behavior_all,
}
use cf_local.Storage.{Bbolt, Json}
use cf_local.CachePolicy.Store.{Record, type_managed, BoltStore, seed_records}

-- time.Date(2020, 5, 31, ...), in nanoseconds.
abbrev pub managed_last_modified : ℕ
managed_last_modified = 1590883200 * 10 ^ 9

abbrev pub managed_record : (CachePolicyConfig → Bytes) → Bytes → CachePolicyConfig → Record
managed_record etag_gen id cfg = record {
  id = id;
  etag = etag_gen cfg;
  config = some cfg;
  last_modified_time = managed_last_modified;
  kind = type_managed;
}

abbrev nothing : Option Section
nothing = some (record { behavior = behavior_none; names = none })

abbrev everything : Option Section
everything = some (record { behavior = behavior_all; names = none })

abbrev only : List Bytes → Option Section
only items = some (record {
  behavior = behavior_whitelist;
  names = some (record { quantity = some (length items); items = items });
})

abbrev pub managed_caching_optimized : CachePolicyConfig
managed_caching_optimized = record {
  comment = some (codes "Policy with caching enabled. Supports Gzip and Brotli compression.");
  default_ttl = some 86400;
  max_ttl = some 31536000;
  min_ttl = some 1;
  name = some (codes "Managed-CachingOptimized");
  parameters = some (record {
    enable_accept_encoding_brotli = some true;
    enable_accept_encoding_gzip = some true;
    headers = nothing;
    cookies = nothing;
    query_strings = nothing;
  });
}

abbrev pub managed_caching_disabled : CachePolicyConfig
managed_caching_disabled = record {
  comment = some (codes "Policy with caching disabled.");
  default_ttl = some 0;
  max_ttl = some 0;
  min_ttl = some 0;
  name = some (codes "Managed-CachingDisabled");
  parameters = some (record {
    enable_accept_encoding_brotli = some false;
    enable_accept_encoding_gzip = some false;
    headers = nothing;
    cookies = nothing;
    query_strings = nothing;
  });
}

abbrev pub managed_caching_optimized_for_uncompressed_objects : CachePolicyConfig
managed_caching_optimized_for_uncompressed_objects = record {
  comment =
      some (codes "Policy with caching enabled. Does not support Gzip or Brotli compression.");
  default_ttl = some 86400;
  max_ttl = some 31536000;
  min_ttl = some 1;
  name = some (codes "Managed-CachingOptimizedForUncompressedObjects");
  parameters = some (record {
    enable_accept_encoding_brotli = some false;
    enable_accept_encoding_gzip = some false;
    headers = nothing;
    cookies = nothing;
    query_strings = nothing;
  });
}

abbrev pub managed_elemental_media_package : CachePolicyConfig
managed_elemental_media_package = record {
  comment = some (codes "Policy for AWS Elemental MediaPackage origins.");
  default_ttl = some 86400;
  max_ttl = some 31536000;
  min_ttl = some 0;
  name = some (codes "Managed-Elemental-MediaPackage");
  parameters = some (record {
    enable_accept_encoding_brotli = some false;
    enable_accept_encoding_gzip = some true;
    headers = only (codes "Origin" ∷ []);
    cookies = nothing;
    query_strings =
        only (codes "aws.manifestfilter" ∷ codes "start" ∷ codes "end" ∷ codes "m" ∷ []);
  });
}

abbrev pub managed_amplify : CachePolicyConfig
managed_amplify = record {
  comment = some (codes "Policy for AWS Amplify web app origins.");
  default_ttl = some 2;
  max_ttl = some 600;
  min_ttl = some 2;
  name = some (codes "Managed-Amplify");
  parameters = some (record {
    enable_accept_encoding_brotli = some true;
    enable_accept_encoding_gzip = some true;
    headers = only (codes "Authorization" ∷ codes "CloudFront-Viewer-Country" ∷ codes "Host" ∷ []);
    cookies = everything;
    query_strings = everything;
  });
}

unfoldable pub managed_policies : (CachePolicyConfig → Bytes) → List Record
managed_policies etag_gen =
    managed_record etag_gen (codes "658327ea-f89d-4fab-a63d-7e88639e58f6") managed_caching_optimized
    ∷ managed_record etag_gen (codes "4135ea2d-6df8-44a3-9df3-4b5a84be39ad")
        managed_caching_disabled
    ∷ managed_record etag_gen (codes "b2884449-e4de-46a7-ac36-70bc7f1ddd6d")
        managed_caching_optimized_for_uncompressed_objects
    ∷ managed_record etag_gen (codes "08627262-05a9-4f76-9ded-b50ca2e3a84f")
        managed_elemental_media_package
    ∷ managed_record etag_gen (codes "2e54312d-136d-493c-8eb9-b001f22f67d2") managed_amplify
    ∷ []

module _ (bolt : Bbolt) (json : Json Record) (etag_gen : CachePolicyConfig → Bytes) where
  unfoldable pub seed_managed : BoltStore bolt json etag_gen → BoltStore bolt json etag_gen
  seed_managed s = seed_records bolt json etag_gen (managed_policies etag_gen) s
