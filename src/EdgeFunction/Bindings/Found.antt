-- ===== src/EdgeFunction/Bindings/Found.antt =====
-- internal/api/edgefunc/handler.go and internal/nginx/conf.go: every hook of the configuration has a
-- binding.
use cf_local.Prelude.{
  ◌≡◌, refl, sym, ap, ◌∙◌, inl, inr, true, Option, none, some, List, [], ◌∷◌, ◌++◌, map, arith,
  Bool-cases, any, Bytes, equal, equal_iff, Dict,
}
use mathlib.Core.Path.{subst}
use cf_local.Prelude.Sort.{In, In-cases, not-In-nil, In-of_append}
use cf_local.Distribution.{Association, Behavior, CacheBehavior, DistributionConfig}
use cf_local.Nginx.Conf.Views.{has_association, items_of}
use cf_local.Nginx.Conf.Views.Routes.{Rule, rule_of}
use cf_local.Nginx.Conf.Views.Served.{rules}
use cf_local.EdgeFunction.{EdgeFunction}
use cf_local.EdgeFunction.Server.{find_by_event}
use cf_local.EdgeFunction.Bindings.{
  edge_function, append_from_associations, append_behaviors, append_default, append_items,
  collect_functions,
}

module _ (event : Bytes) where
  -- Some function is bound to the event.
  abbrev Bound : List EdgeFunction → Type 0
  Bound fs = any (λ (f : EdgeFunction). equal f.event_type event) fs ≡ true

  find_by_event-Bound :
      (fs : List EdgeFunction)
      → Bound fs
      → (fn : EdgeFunction) × (find_by_event fs event ≡ some fn) × (fn.event_type ≡ event)
  unfolding find_by_event
  find_by_event-Bound [] h = cc
  find_by_event-Bound (f ∷ fs) h = elim (Bool-cases (equal f.event_type event)) [
    | inl e ↦ (f, rw (e, find_by_event) refl, (equal_iff f.event_type event).0 e)
    | inr e ↦
        let (fn, k, n) = find_by_event-Bound fs (ground arith) in (fn, rw (e, find_by_event) k, n)
  ]

  Bound-appendl : (fs gs : List EdgeFunction) → Bound fs → Bound (fs ++ gs)
  Bound-appendl [] gs h = cc
  Bound-appendl (f ∷ fs) gs h = ground (arith, Bound-appendl fs gs)

  Bound-appendr : (fs gs : List EdgeFunction) → Bound gs → Bound (fs ++ gs)
  Bound-appendr [] gs h = h
  Bound-appendr (f ∷ fs) gs h = ground (arith, Bound-appendr fs gs)

  module _ (endpoints : Dict Bytes) where
    Bound-map :
        (items : List Association)
        → any (λ (a : Association). equal a.event_type event) items ≡ true
        → Bound (map (edge_function endpoints) items)
    unfolding edge_function
    Bound-map [] h = cc
    Bound-map (a ∷ items) h = ground (arith, Bound-map items)

    append_from-kept :
        (out : List EdgeFunction) (o : Option (List Association))
        → Bound out
        → Bound (append_from_associations endpoints out o)
    unfolding append_from_associations
    append_from-kept out none h = h
    append_from-kept out (some items) h = Bound-appendl out _ h

    append_from-Bound :
        (out : List EdgeFunction) (o : Option (List Association))
        → has_association event o ≡ true
        → Bound (append_from_associations endpoints out o)
    unfolding append_from_associations has_association
    append_from-Bound out none h = cc
    append_from-Bound out (some items) h = Bound-appendr out _ (Bound-map items h)

    append_behaviors-kept :
        (out : List EdgeFunction) (bs : List CacheBehavior)
        → Bound out
        → Bound (append_behaviors endpoints out bs)
    unfolding append_behaviors
    append_behaviors-kept out [] h = h
    append_behaviors-kept out (b ∷ bs) h =
        append_behaviors-kept
          (append_from_associations endpoints out b.behavior.lambda_function_associations) bs
          (append_from-kept out _ h)

    append_behaviors-Bound :
        (out : List EdgeFunction) (bs : List CacheBehavior) (rule : Rule)
        → In rule (map rule_of bs)
        → has_association event rule.1.lambda_function_associations ≡ true
        → Bound (append_behaviors endpoints out bs)
    unfolding append_behaviors
    append_behaviors-Bound out [] rule i h = absurd (not-In-nil i)
    append_behaviors-Bound out (b ∷ bs) rule i h = elim (In-cases i) [
      | inl e ↦
          let at : has_association event b.behavior.lambda_function_associations ≡ true =
            ap (λ (r : Rule). has_association event r.1.lambda_function_associations) e ∙ h in
          append_behaviors-kept
            (append_from_associations endpoints out b.behavior.lambda_function_associations) bs
            (append_from-Bound out _ at)
      | inr j ↦
          append_behaviors-Bound
            (append_from_associations endpoints out b.behavior.lambda_function_associations) bs rule
            j h
    ]

    append_items-lem :
        (out : List EdgeFunction) (o : Option (List CacheBehavior))
        → append_items endpoints out o ≡ append_behaviors endpoints out (items_of o)
    unfolding append_items append_behaviors items_of
    append_items-lem out none = refl
    append_items-lem out (some bs) = refl

    -- Where a behavior of a distribution, the default one or another, is associated with an event,
    -- so that the renderer writes its hook, the bindings that the control plane lists for the
    -- distribution have one for the event, and the edge proxy finds it.
    pub hook_bound :
        (d : DistributionConfig) (default : Behavior) (rule : Rule)
        → d.default_cache_behavior ≡ some default
        → In rule (rules d default)
        → has_association event rule.1.lambda_function_associations ≡ true
        → (fn : EdgeFunction) × (find_by_event (collect_functions endpoints (some d)) event
            ≡ some fn)
          × (fn.event_type ≡ event)
    unfolding collect_functions append_default
    hook_bound d default rule e i h =
        let out = append_from_associations endpoints [] default.lambda_function_associations in
        let bound : Bound (append_behaviors endpoints out (items_of d.cache_behaviors)) =
          elim (In-of_append (map rule_of (items_of d.cache_behaviors)) _ i) [
            | inl j ↦ append_behaviors-Bound out (items_of d.cache_behaviors) rule j h
            | inr j ↦ elim (In-cases j) [
              | inr k ↦ absurd (not-In-nil k)
              | inl q ↦
                  let at : has_association event default.lambda_function_associations ≡ true =
                    ap (λ (r : Rule). has_association event r.1.lambda_function_associations) q
                    ∙ h in
                  append_behaviors-kept out (items_of d.cache_behaviors)
                    (append_from-Bound [] default.lambda_function_associations at)
            ]
          ] in
        find_by_event-Bound (collect_functions endpoints (some d)) (
          subst
            (λ o. Bound (append_items endpoints (append_default endpoints [] o) d.cache_behaviors))
            (sym e) (subst Bound (sym (append_items-lem out d.cache_behaviors)) bound))
