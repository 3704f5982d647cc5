-- ===== src/Invalidation/Handler/Pages.antt =====
-- `List` of aws_handler.go: the page size, the page, and the response.
use cf_local.Prelude.{
  ℕ, suc, ◌+◌, ◌-◌, ◌≤◌, ◌≡◌, refl, Bool, false, ◌&&◌, Option, none, some, List, [], ◌∷◌, map,
  arith, ltb, leb, ◌==◌, if◌then◌else◌, length, take, drop, Bytes, codes, equal,
}
use cf_local.Prelude.Int.{pos, negsuc}
use cf_local.Prelude.Numbers.{atoi}
use cf_local.Xml.Codes.{Response, content, write_error, invalid_argument}
use cf_local.Invalidation.Store.{Record}
use cf_local.Invalidation.Handler.{
  list_max_items_default, list_max_items_cap, ListXml, SummaryXml, Store,
}

-- `none` where the handler has answered with InvalidArgument.
unfoldable pub parse_list_max_items : Bytes → Option ℕ
parse_list_max_items raw = if equal raw [] then some list_max_items_default else elim (atoi raw) [
  | none ↦ none
  | some n ↦ elim n [
    | negsuc _ ↦ none
    | pos k ↦
        if k == 0
        then none
        else if ltb list_max_items_cap k
        then some list_max_items_cap
        else some k
  ]
]

-- The position of the record with this ID.
unfoldable pub find_id : Bytes → List Record → Option ℕ
find_id marker [] = none
find_id marker (r ∷ rest) =
    let later = find_id marker rest in
    if equal r.id marker then some 0 else elim later [ none ↦ none | some i ↦ some (suc i) ]

unfoldable pub last_id : List Record → Bytes
last_id [] = []
last_id (r ∷ []) = r.id
last_id (r ∷ q ∷ rest) = last_id (q ∷ rest)

pub record Page : Type 0 where
  pub records : List Record
  pub is_truncated : Bool
  pub next_marker : Bytes

abbrev pub empty_page : Page
empty_page = record { records = []; is_truncated = false; next_marker = [] }

-- From `start` on.
unfoldable pub page_from : List Record → ℕ → ℕ → Page
unfolding last_id
page_from records start max_items =
    if leb (length records) start
    then empty_page
    else (let truncated = ltb (start + max_items) (length records) in
        let stop = if truncated then start + max_items else length records in
        let page = take (stop - start) (drop start records) in
        record {
          records = page;
          is_truncated = truncated;
          next_marker = if truncated && ltb 0 (length page) then last_id page else [];
        })

unfoldable pub paginate_records : List Record → Bytes → ℕ → Page
unfolding find_id page_from
paginate_records records marker max_items =
    if equal marker [] then page_from records 0 max_items else elim (find_id marker records) [
      | none ↦ empty_page
      | some i ↦ page_from records (i + 1) max_items
    ]

module _ (store : Store) (format_time : ℕ → Bytes) where
  unfoldable pub summary : Record → SummaryXml
  summary r = record { id = r.id; status = r.status; create_time = format_time r.create_time }

  -- `List`; the store's `List` reports no error.
  unfoldable pub list : Bytes → Bytes → Bytes → store.State → Response ListXml
  unfolding summary
  list dist_id marker raw_max_items s =
      if equal dist_id []
      then write_error invalid_argument
      else elim (parse_list_max_items raw_max_items) [
        | none ↦ write_error invalid_argument
        | some max_items ↦
            let page = paginate_records (store.list dist_id s) marker max_items in
            let items = map summary page.records in
            record {
              status = 200;
              body = content (record {
                marker = marker;
                max_items = max_items;
                is_truncated = page.is_truncated;
                next_marker = page.next_marker;
                items = items;
                quantity = length items;
              });
            }
      ]

-- A page size that `parseListMaxItems` returns is between 1 and 100.
pub parse_list_max_items_bounds :
    (raw : Bytes) (n : ℕ) → parse_list_max_items raw ≡ some n → (1 ≤ n) × (n ≤ 100)
unfolding parse_list_max_items
parse_list_max_items_bounds raw n h = ground arith

atoi_100 : atoi (codes "+100") ≡ some (pos 100)
unfolding atoi
atoi_100 = refl

atoi_low : atoi (codes "-9223372036854775808") ≡ some (negsuc 9223372036854775807)
unfolding atoi
atoi_low = refl

atoi_errors :
    (atoi (codes "9223372036854775808") ≡ none)
    × (atoi (codes "-") ≡ none)
    × (atoi (codes "1_0") ≡ none)
unfolding atoi
atoi_errors = (refl, refl, refl)
