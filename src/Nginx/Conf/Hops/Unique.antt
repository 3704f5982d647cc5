-- ===== src/Nginx/Conf/Hops/Unique.antt =====
-- internal/nginx/conf.go: the hops to the inner server, and the locations that they end in.
use cf_local.Prelude.{◌≡◌, true, List, ◌++◌, All, Bytes, has_prefix}
use cf_local.Prelude.Sort.{In}
use cf_local.Nginx.Conf.Views.{InnerView, BehaviorView}
use cf_local.Nginx.Conf.Writers.{target_prefix, fetch_prefix, origin_inner_prefix}
use cf_local.Nginx.Conf.Hops.{slash, locations}

-- The location takes the request for the prefix and anything behind it, and is the only one of the
-- list that is a prefix of such a request.
abbrev pub OnlyTakes : List Bytes → Bytes → Type 0
OnlyTakes ls location =
    In location ls
    × ((l rest : Bytes) → In l ls → has_prefix l (location ++ rest) ≡ true → l ≡ location)

-- The hops of these views end in locations of theirs.
abbrev pub HopsEnd : List BehaviorView × List InnerView → Type 0
HopsEnd (views, inners) =
    All (λ view. OnlyTakes (locations inners) (target_prefix view ++ slash)) views
    × All (λ inner. OnlyTakes (locations inners) (fetch_prefix inner ++ slash)) inners
    × All (λ inner. OnlyTakes (locations inners) (origin_inner_prefix inner ++ slash)) inners
