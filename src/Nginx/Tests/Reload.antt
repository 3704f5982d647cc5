-- ===== src/Nginx/Tests/Reload.antt =====
-- Runs of the writer and the reloader, and the theorems at concrete inputs.
use cf_local.Prelude.{
  ℕ, ◌+◌, ◌≤◌, ◌≡◌, refl, ◌⊎◌, ◌↔◌, inl, inr, Bool, true, false, Option, none, some, List, [], ◌∷◌,
  length, All, Bytes, codes, Dict, lookup, Succeeds,
}
use cf_local.Distribution.{DistributionConfig}
use cf_local.Nginx.Headers.{deref_bool}
use cf_local.Nginx.Render.{LoadResult, PolicyOut, render}
use cf_local.Nginx.Render.Accepts.{OriginsNamed, BehaviorsNamed, render_iff}
use cf_local.Nginx.Render.Policies.{NoNil}
use cf_local.Nginx.Writer.{Disk, Calls, write_atomic, last_disk, tmp_name, base}
use cf_local.Nginx.Writer.Atomic.{OldOrNew, write_atomic_lem}
use cf_local.Nginx.Reloader.{
  Answers, State, Event, changed, triggered, received, fired, cancelled, fetch_nil, render_to, step,
  run,
}
use cf_local.Nginx.Reloader.Current.{IsSettled, run_current}
use cf_local.Nginx.Reloader.Settles.{fires, triggers, waiting, IsTurn, fires_bounds, settles}

abbrev all_fine : Calls
all_fine = record {
  open_ok = true;
  write_ok = true;
  written = 0;
  sync_ok = true;
  close_ok = true;
  rename_ok = true;
  remove_ok = true;
  open_dir_ok = true;
  sync_dir_ok = true;
  close_dir_ok = true;
}

abbrev torn : Calls
torn = record all_fine { write_ok = false; written = 1 }

abbrev old_disk : Disk
old_disk = (codes "a.json", codes "old") ∷ []

test_torn :
    (write_atomic torn (codes "a.json") (codes "new") old_disk).failure
    ≡ some cf_local.Nginx.Writer.write_failed
unfolding base cf_local.Nginx.Writer.last_element cf_local.Nginx.Writer.remove_file
    cf_local.Nginx.Writer.rename_file cf_local.Nginx.Writer.sync_parent tmp_name
    cf_local.Nginx.Writer.trim_slashes write_atomic cf_local.Nginx.Writer.write_steps
    cf_local.Prelude.delete cf_local.Prelude.insert lookup cf_local.Prelude.equal
test_torn = refl

write_atomic_lem_example :
    All
      (OldOrNew (codes "a.json") (codes "new") old_disk)
      (write_atomic torn (codes "a.json") (codes "new") old_disk).disks
    × ((write_atomic torn (codes "a.json") (codes "new") old_disk).failure ≡ none
        → (lookup
              (codes "a.json")
              (last_disk old_disk (write_atomic torn (codes "a.json") (codes "new") old_disk).disks)
            ≡ some (codes "new"))
          × (lookup (tmp_name (codes "a.json")) (
                last_disk old_disk
                  (write_atomic torn (codes "a.json") (codes "new") old_disk).disks)
              ≡ none))
write_atomic_lem_example = write_atomic_lem (codes "a.json") (codes "new") old_disk torn

-- An encoder that stands for encoding/json, and no rune behind ASCII.
abbrev encode : Dict PolicyOut → Option Bytes
encode m = some (codes "{}")

abbrev printable : ℕ → Bool
printable r = false

abbrev empty_result : LoadResult
empty_result = record {
  distribution = none;
  distribution_id = [];
  cache_policies = [];
  response_headers_policies = [];
  edge_proxy_url = [];
  resolver = [];
}

abbrev answers : Answers
answers = record { policies_calls = all_fine; conf_calls = all_fine }

abbrev start : State
start = record {
  store = some empty_result;
  callers = 0;
  trigger_pending = false;
  debounce_armed = false;
  running = true;
  fetched = none;
  disk = [];
  last_err = none;
}

-- Two changes before the first trigger is taken: one render.
abbrev events : List Event
events =
    changed (some empty_result)
    ∷ triggered
    ∷ changed (some empty_result)
    ∷ triggered
    ∷ received
    ∷ fired answers
    ∷ []

abbrev ran : State
ran = record {
  store = some empty_result;
  callers = 0;
  trigger_pending = false;
  debounce_armed = false;
  running = true;
  fetched = some empty_result;
  disk = (codes "policies.json", codes "{}") ∷ [];
  last_err = none;
}

test_run : run encode printable events start ≡ some ran
unfolding cf_local.Nginx.Conf.Names.concat_map cf_local.Nginx.Conf.Names.forward_location_name
    cf_local.Nginx.Conf.Names.inner_prefix cf_local.Nginx.Conf.Names.is_id_rune
    cf_local.Nginx.Conf.Names.origin_request_prefix cf_local.Nginx.Conf.Names.origin_response_prefix
    cf_local.Nginx.Conf.Names.origin_upstream_name
    cf_local.Nginx.Conf.Names.path_pattern_to_location
    cf_local.Nginx.Conf.Names.sanitize_comment_text cf_local.Nginx.Conf.Names.sanitize_id
    cf_local.Nginx.Conf.Names.sanitize_nginx_set_value cf_local.Nginx.Conf.Names.set_value_rune
    cf_local.Nginx.Conf.Names.strip_star cf_local.Nginx.Conf.Views.add_behavior
    cf_local.Nginx.Conf.Views.add_behaviors cf_local.Nginx.Conf.Views.add_inner
    cf_local.Nginx.Conf.Views.behavior_head cf_local.Nginx.Conf.Views.behavior_view
    cf_local.Nginx.Conf.Views.build_behavior_views cf_local.Nginx.Conf.Views.build_origin_views
    cf_local.Nginx.Conf.Views.build_views cf_local.Nginx.Conf.Views.comment_tail
    cf_local.Nginx.Conf.Views.has_association
    cf_local.Nginx.Conf.Views.has_origin_request_association
    cf_local.Nginx.Conf.Views.has_origin_response_association
    cf_local.Nginx.Conf.Views.has_viewer_request_association cf_local.Nginx.Conf.Views.inner_for
    cf_local.Nginx.Conf.Views.inner_list cf_local.Nginx.Conf.Views.inners_at
    cf_local.Nginx.Conf.Views.items_of cf_local.Nginx.Conf.Views.keys
    cf_local.Nginx.Conf.Views.merge_inner cf_local.Nginx.Conf.Views.new_inner
    cf_local.Nginx.Conf.Views.origin_view cf_local.Nginx.Conf.Views.origin_views
    cf_local.Nginx.Conf.Views.port_of cf_local.Nginx.Conf.Views.within_behavior
    cf_local.Nginx.Conf.Writers.fetch_prefix cf_local.Nginx.Conf.Writers.lines
    cf_local.Nginx.Conf.Writers.set_line cf_local.Nginx.Conf.Writers.target_prefix
    cf_local.Nginx.Conf.Writers.write_behavior cf_local.Nginx.Conf.Writers.write_behaviors
    cf_local.Nginx.Conf.Writers.write_conf_header cf_local.Nginx.Conf.Writers.write_forward_location
    cf_local.Nginx.Conf.Writers.write_inner cf_local.Nginx.Conf.Writers.write_inner_location
    cf_local.Nginx.Conf.Writers.write_inners cf_local.Nginx.Conf.Writers.write_lambda_edge_outer
    cf_local.Nginx.Conf.Writers.write_origin_request_location
    cf_local.Nginx.Conf.Writers.write_origin_response_location
    cf_local.Nginx.Conf.Writers.write_origins cf_local.Nginx.Conf.Writers.write_outer_location
    cf_local.Nginx.Conf.Writers.write_outer_location_body
    cf_local.Nginx.Conf.Writers.write_server_block cf_local.Nginx.Conf.Writers.write_upstream
    cf_local.Nginx.Conf.Writers.write_upstreams cf_local.Nginx.Headers.add_line
    cf_local.Nginx.Headers.append_checked cf_local.Nginx.Headers.append_cors_directive
    cf_local.Nginx.Headers.append_cors_directives cf_local.Nginx.Headers.append_credentials
    cf_local.Nginx.Headers.append_custom_header_directives cf_local.Nginx.Headers.append_joined
    cf_local.Nginx.Headers.append_max_age cf_local.Nginx.Headers.append_origin
    cf_local.Nginx.Headers.custom_header_lines cf_local.Nginx.Headers.custom_headers_lines
    deref_bool cf_local.Nginx.Headers.deref_string cf_local.Nginx.Headers.header_lines
    cf_local.Nginx.Headers.hide_line cf_local.Nginx.Headers.is_header_name_rune
    cf_local.Nginx.Headers.is_valid_header_name cf_local.Nginx.Headers.is_valid_header_value
    cf_local.Nginx.Headers.is_value_breaker cf_local.Nginx.Headers.join_list
    cf_local.Nginx.Headers.lookup_response_headers
    cf_local.Nginx.Headers.response_headers_to_directives cf_local.Nginx.Reloader.reload render_to
    run step cf_local.Nginx.Reloader.trigger cf_local.Nginx.Reloader.write_conf
    cf_local.Nginx.Reloader.write_output cf_local.Nginx.Render.build_policies_json
    cf_local.Nginx.Render.conf_for cf_local.Nginx.Render.convert_cache_policy
    cf_local.Nginx.Render.convert_cookies_config cf_local.Nginx.Render.convert_headers_config
    cf_local.Nginx.Render.convert_parameters cf_local.Nginx.Render.convert_policies
    cf_local.Nginx.Render.convert_query_strings_config cf_local.Nginx.Render.enabled_conf
    cf_local.Nginx.Render.has_hook cf_local.Nginx.Render.or_default render
    cf_local.Nginx.Render.render_conf cf_local.Nginx.Render.section_names base last_disk
    cf_local.Nginx.Writer.last_element cf_local.Nginx.Writer.remove_file
    cf_local.Nginx.Writer.rename_file cf_local.Nginx.Writer.sync_parent tmp_name
    cf_local.Nginx.Writer.trim_slashes write_atomic cf_local.Nginx.Writer.write_steps
    cf_local.Prelude.Format.decimal cf_local.Prelude.Format.decimal_int cf_local.Prelude.Format.join
    cf_local.Prelude.delete cf_local.Prelude.insert lookup cf_local.Prelude.Quote.encode_rune
    cf_local.Prelude.Quote.quote cf_local.Prelude.Runes.decode_rune cf_local.Prelude.Runes.runes
    cf_local.Prelude.Sort.sort_insert cf_local.Prelude.Sort.sort_stable cf_local.Prelude.equal
    cf_local.Prelude.less
test_run = refl

run_current_example :
    (ran.fetched ≡ ran.store)
    × ((a : Answers) × (before : Disk) × (render_to encode printable a ran.store before
          ≡ (ran.disk, ran.last_err)))
run_current_example =
    run_current encode printable (changed (some empty_result))
      (triggered ∷ changed (some empty_result) ∷ triggered ∷ received ∷ fired answers ∷ []) start
      ran test_run refl (refl, refl, refl)

fires_bounds_example : fires events + waiting ran ≤ triggers events + waiting start
fires_bounds_example = fires_bounds encode printable events start ran test_run

-- The longest run of turns: the tick, the trigger, the tick.
abbrev busy : State
busy = record start { trigger_pending = true; debounce_armed = true }

abbrev three_turns : List Event
three_turns = fired answers ∷ received ∷ fired answers ∷ []

abbrev busy_ran : State
busy_ran = ran

test_busy : run encode printable three_turns busy ≡ some busy_ran
unfolding cf_local.Nginx.Conf.Names.concat_map cf_local.Nginx.Conf.Names.forward_location_name
    cf_local.Nginx.Conf.Names.inner_prefix cf_local.Nginx.Conf.Names.is_id_rune
    cf_local.Nginx.Conf.Names.origin_request_prefix cf_local.Nginx.Conf.Names.origin_response_prefix
    cf_local.Nginx.Conf.Names.origin_upstream_name
    cf_local.Nginx.Conf.Names.path_pattern_to_location
    cf_local.Nginx.Conf.Names.sanitize_comment_text cf_local.Nginx.Conf.Names.sanitize_id
    cf_local.Nginx.Conf.Names.sanitize_nginx_set_value cf_local.Nginx.Conf.Names.set_value_rune
    cf_local.Nginx.Conf.Names.strip_star cf_local.Nginx.Conf.Views.add_behavior
    cf_local.Nginx.Conf.Views.add_behaviors cf_local.Nginx.Conf.Views.add_inner
    cf_local.Nginx.Conf.Views.behavior_head cf_local.Nginx.Conf.Views.behavior_view
    cf_local.Nginx.Conf.Views.build_behavior_views cf_local.Nginx.Conf.Views.build_origin_views
    cf_local.Nginx.Conf.Views.build_views cf_local.Nginx.Conf.Views.comment_tail
    cf_local.Nginx.Conf.Views.has_association
    cf_local.Nginx.Conf.Views.has_origin_request_association
    cf_local.Nginx.Conf.Views.has_origin_response_association
    cf_local.Nginx.Conf.Views.has_viewer_request_association cf_local.Nginx.Conf.Views.inner_for
    cf_local.Nginx.Conf.Views.inner_list cf_local.Nginx.Conf.Views.inners_at
    cf_local.Nginx.Conf.Views.items_of cf_local.Nginx.Conf.Views.keys
    cf_local.Nginx.Conf.Views.merge_inner cf_local.Nginx.Conf.Views.new_inner
    cf_local.Nginx.Conf.Views.origin_view cf_local.Nginx.Conf.Views.origin_views
    cf_local.Nginx.Conf.Views.port_of cf_local.Nginx.Conf.Views.within_behavior
    cf_local.Nginx.Conf.Writers.fetch_prefix cf_local.Nginx.Conf.Writers.lines
    cf_local.Nginx.Conf.Writers.set_line cf_local.Nginx.Conf.Writers.target_prefix
    cf_local.Nginx.Conf.Writers.write_behavior cf_local.Nginx.Conf.Writers.write_behaviors
    cf_local.Nginx.Conf.Writers.write_conf_header cf_local.Nginx.Conf.Writers.write_forward_location
    cf_local.Nginx.Conf.Writers.write_inner cf_local.Nginx.Conf.Writers.write_inner_location
    cf_local.Nginx.Conf.Writers.write_inners cf_local.Nginx.Conf.Writers.write_lambda_edge_outer
    cf_local.Nginx.Conf.Writers.write_origin_request_location
    cf_local.Nginx.Conf.Writers.write_origin_response_location
    cf_local.Nginx.Conf.Writers.write_origins cf_local.Nginx.Conf.Writers.write_outer_location
    cf_local.Nginx.Conf.Writers.write_outer_location_body
    cf_local.Nginx.Conf.Writers.write_server_block cf_local.Nginx.Conf.Writers.write_upstream
    cf_local.Nginx.Conf.Writers.write_upstreams cf_local.Nginx.Headers.add_line
    cf_local.Nginx.Headers.append_checked cf_local.Nginx.Headers.append_cors_directive
    cf_local.Nginx.Headers.append_cors_directives cf_local.Nginx.Headers.append_credentials
    cf_local.Nginx.Headers.append_custom_header_directives cf_local.Nginx.Headers.append_joined
    cf_local.Nginx.Headers.append_max_age cf_local.Nginx.Headers.append_origin
    cf_local.Nginx.Headers.custom_header_lines cf_local.Nginx.Headers.custom_headers_lines
    deref_bool cf_local.Nginx.Headers.deref_string cf_local.Nginx.Headers.header_lines
    cf_local.Nginx.Headers.hide_line cf_local.Nginx.Headers.is_header_name_rune
    cf_local.Nginx.Headers.is_valid_header_name cf_local.Nginx.Headers.is_valid_header_value
    cf_local.Nginx.Headers.is_value_breaker cf_local.Nginx.Headers.join_list
    cf_local.Nginx.Headers.lookup_response_headers
    cf_local.Nginx.Headers.response_headers_to_directives cf_local.Nginx.Reloader.reload render_to
    run step cf_local.Nginx.Reloader.trigger cf_local.Nginx.Reloader.write_conf
    cf_local.Nginx.Reloader.write_output cf_local.Nginx.Render.build_policies_json
    cf_local.Nginx.Render.conf_for cf_local.Nginx.Render.convert_cache_policy
    cf_local.Nginx.Render.convert_cookies_config cf_local.Nginx.Render.convert_headers_config
    cf_local.Nginx.Render.convert_parameters cf_local.Nginx.Render.convert_policies
    cf_local.Nginx.Render.convert_query_strings_config cf_local.Nginx.Render.enabled_conf
    cf_local.Nginx.Render.has_hook cf_local.Nginx.Render.or_default render
    cf_local.Nginx.Render.render_conf cf_local.Nginx.Render.section_names base last_disk
    cf_local.Nginx.Writer.last_element cf_local.Nginx.Writer.remove_file
    cf_local.Nginx.Writer.rename_file cf_local.Nginx.Writer.sync_parent tmp_name
    cf_local.Nginx.Writer.trim_slashes write_atomic cf_local.Nginx.Writer.write_steps
    cf_local.Prelude.Format.decimal cf_local.Prelude.Format.decimal_int cf_local.Prelude.Format.join
    cf_local.Prelude.delete cf_local.Prelude.insert lookup cf_local.Prelude.Quote.encode_rune
    cf_local.Prelude.Quote.quote cf_local.Prelude.Runes.decode_rune cf_local.Prelude.Runes.runes
    cf_local.Prelude.Sort.sort_insert cf_local.Prelude.Sort.sort_stable cf_local.Prelude.equal
    cf_local.Prelude.less
test_busy = refl

settles_example :
    (length three_turns ≤ 3)
    × (busy_ran.store ≡ some empty_result)
    × (busy_ran.running ≡ true)
    × (IsSettled busy_ran
        ⊎ ((e : Event) × (u : State) × IsTurn e × (step encode printable e busy_ran ≡ some u)))
settles_example =
    settles encode printable answers three_turns busy busy_ran refl refl
      (inr (answers, refl), (inl refl, (inr (answers, refl), tt))) test_busy

render_iff_example :
    Succeeds (render encode printable (some empty_result))
    ↔ NoNil []
      × ((d : DistributionConfig)
          → none ≡ some d
          → deref_bool d.enabled ≡ true
          → OriginsNamed d.origins × BehaviorsNamed d)
render_iff_example = render_iff encode printable (λ m. (codes "{}", refl)) empty_result
