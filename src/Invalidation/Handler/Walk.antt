-- ===== src/Invalidation/Handler/Walk.antt =====
-- A client that follows `NextMarker` from page to page sees every record once and in order.
use mathlib.Core.List.{append_assoc, append-nil}
use cf_local.Prelude.{
  ℕ, zero, suc, ◌+◌, ◌-◌, ◌≤◌, ◌<◌, ◌≡◌, refl, sym, ap, ◌∙◌, ◌≢◌, inl, inr, true, false, some, List,
  [], ◌∷◌, ◌++◌, arith, ltb, leb, if◌then◌else◌, ltb→lt, Bool-cases, length, take, drop,
  length-append, take-append-drop, length-take, length-drop, All, Bytes, equal_iff, equal_refl,
  equal-ne,
}
use cf_local.Invalidation.Store.{Record}
use cf_local.Invalidation.Handler.Pages.{Page, find_id, last_id, page_from, paginate_records}

-- The records that the client collects: it stops at a page that is not truncated.
abbrev pub collect : ℕ → List Record → Bytes → ℕ → List Record
collect zero records marker max_items = []
collect (suc fuel) records marker max_items =
    let page = paginate_records records marker max_items in
    let later = collect fuel records page.next_marker max_items in
    page.records ++ (if page.is_truncated then later else [])

-- IDs that are not empty and all different.
abbrev pub GoodIds : List Record → Type 0
GoodIds [] = Unit
GoodIds (r ∷ rs) = (r.id ≢ []) × All (λ (q : Record). r.id ≢ q.id) rs × GoodIds rs

-- `marker` is where the client stands after `seen`.
data Stands (marker : Bytes) : List Record → Type 0 where
  start : marker ≡ [] → Stands marker []
  after :
      {seen : List Record} (before : List Record) (r : Record)
      → seen ≡ before ++ r ∷ []
      → marker ≡ r.id
      → Stands marker seen

find_id-here :
    (before rest : List Record) (r : Record)
    → GoodIds (before ++ r ∷ rest)
    → find_id r.id (before ++ r ∷ rest) ≡ some (length before)
unfolding find_id
find_id-here [] rest r g = ground (arith, equal_refl r.id)
find_id-here (q ∷ before) rest r g =
    ground (arith, find_id-here before rest r g.2, equal_iff q.id r.id, apart before g.1)
  where
    apart : (l : List Record) → All (λ (z : Record). q.id ≢ z.id) (l ++ r ∷ rest) → q.id ≢ r.id
    apart [] a = a.0
    apart (z ∷ l) a = apart l a.1

GoodIds-ne : (before rest : List Record) (r : Record) → GoodIds (before ++ r ∷ rest) → r.id ≢ []
GoodIds-ne [] rest r g = g.0
GoodIds-ne (q ∷ before) rest r g = GoodIds-ne before rest r g.2

-- The last record of a list that is not empty.
record Last (rs : List Record) : Type 0 where
  before : List Record
  item : Record
  splits : rs ≡ before ++ item ∷ []
  id_is : last_id rs ≡ item.id

Last-of : (r : Record) (rs : List Record) → Last (r ∷ rs)
unfolding last_id
Last-of r [] = record { before = []; item = r; splits = refl; id_is = refl }
Last-of r (q ∷ rs) =
    let l = Last-of q rs in
    record { before = r ∷ l.before; item = l.item; splits = ap (◌∷◌ r) l.splits; id_is = l.id_is }

-- The page behind `seen`.
abbrev page_of : List Record → ℕ → Page
page_of rest k = record {
  records = take k rest;
  is_truncated = ltb k (length rest);
  next_marker = if ltb k (length rest) then last_id (take k rest) else [];
}

take_all : (k : ℕ) (rest : List Record) → length rest ≤ k → take k rest ≡ rest
take_all zero [] h = refl
take_all zero (x ∷ rest) h = absurd (omega arith)
take_all (suc k) [] h = refl
take_all (suc k) (x ∷ rest) h = ap (◌∷◌ x) (take_all k rest (omega arith))

drop-append : (seen rest : List Record) → drop (length seen) (seen ++ rest) ≡ rest
drop-append [] rest = refl
drop-append (x ∷ seen) rest = drop-append seen rest

page_from-append :
    (seen rest : List Record) (k : ℕ)
    → 0 < k
    → page_from (seen ++ rest) (length seen) k ≡ page_of rest k
unfolding page_from
page_from-append seen [] k pos_k =
    ground (arith, length-append seen [], take_all k [] (omega arith))
page_from-append seen (x ∷ xs) k pos_k =
    let whole = length-append seen (x ∷ xs) in
    let more : leb (length (seen ++ x ∷ xs)) (length seen) ≡ false = ground (arith, whole) in
    elim (Bool-cases (ltb k (length (x ∷ xs)))) [
      | inl t ↦
          let cut : ltb (length seen + k) (length (seen ++ x ∷ xs)) ≡ true =
            ground (arith, whole) in
          let size : length seen + k - length seen ≡ k = omega arith in
          ground (arith, more, cut, size, t, drop-append seen (x ∷ xs), length-take k (x ∷ xs))
      | inr t ↦
          let cut : ltb (length seen + k) (length (seen ++ x ∷ xs)) ≡ false =
            ground (arith, whole) in
          let size : length (seen ++ x ∷ xs) - length seen ≡ length (x ∷ xs) =
            omega (arith, whole) in
          ground (
            arith,
            more,
            cut,
            size,
            t,
            drop-append seen (x ∷ xs),
            take_all k (x ∷ xs) (ground arith),
            take_all (length (x ∷ xs)) (x ∷ xs) (omega arith),
          )
    ]

paginate-Stands :
    (seen rest : List Record) (marker : Bytes) (k : ℕ)
    → 0 < k
    → GoodIds (seen ++ rest)
    → Stands marker seen
    → paginate_records (seen ++ rest) marker k ≡ page_of rest k
unfolding paginate_records
paginate-Stands _ rest marker k pos_k g (start e) =
    ground (arith, page_from-append [] rest k pos_k, equal_iff marker [])
paginate-Stands seen rest marker k pos_k g (after before r e m) =
    let regroup : seen ++ rest ≡ before ++ (r ∷ rest) = rw e (append_assoc before (r ∷ []) rest) in
    let good : GoodIds (before ++ r ∷ rest) = rw regroup at g in
    let found = find_id-here before rest r good in
    let named : r.id ≢ [] = GoodIds-ne before rest r good in
    let size : length seen ≡ length before + 1 = rw e (length-append before (r ∷ [])) in
    let page = page_from-append seen rest k pos_k in
    rw m (ground (arith, regroup, found, equal-ne r.id [] named, size, page))

Stands-append : (seen page : List Record) (l : Last page) → Stands (last_id page) (seen ++ page)
Stands-append seen page l =
    after (seen ++ l.before) l.item
      (ap (λ (t : List Record). seen ++ t) l.splits
        ∙ sym (append_assoc seen l.before (l.item ∷ [])))
      l.id_is

Last-take : (k : ℕ) (rest : List Record) → 0 < k → 0 < length rest → Last (take k rest)
Last-take k [] pos_k h = absurd (omega arith)
Last-take zero (x ∷ rest) pos_k h = absurd (omega arith)
Last-take (suc k) (x ∷ rest) pos_k h = Last-of x (take k rest)

collect-Stands :
    (fuel : ℕ) (seen rest : List Record) (marker : Bytes) (k : ℕ)
    → 0 < k
    → length rest ≤ fuel
    → GoodIds (seen ++ rest)
    → Stands marker seen
    → collect fuel (seen ++ rest) marker k ≡ rest
collect-Stands zero seen [] marker k pos_k h g st = refl
collect-Stands zero seen (x ∷ rest) marker k pos_k h g st = absurd (omega arith)
collect-Stands (suc fuel) seen rest marker k pos_k h g st =
    let page = paginate-Stands seen rest marker k pos_k g st in
    elim (Bool-cases (ltb k (length rest))) [
      | inr t ↦ rw (page, t) (append-nil (take k rest) ∙ take_all k rest (ground arith))
      | inl t ↦
          let more : k < length rest = ltb→lt k (length rest) t in
          let regroup : seen ++ rest ≡ (seen ++ take k rest) ++ drop k rest =
            ap (λ (z : List Record). seen ++ z) (sym (take-append-drop k rest))
            ∙ sym (append_assoc seen (take k rest) (drop k rest)) in
          let later =
            collect-Stands fuel (seen ++ take k rest) (drop k rest) (last_id (take k rest)) k pos_k
              (omega (arith, length-drop k rest)) (rw regroup at g)
              (Stands-append seen (take k rest) (Last-take k rest pos_k (omega arith))) in
          rw (page, t)
            (ap (λ (z : List Record). take k rest ++ z) (rw (← regroup) at later)
              ∙ take-append-drop k rest)
    ]

-- Following `NextMarker` from the first page collects the whole list, each record once and in
-- order, for every page size, in at most as many requests as there are records.
pub collect-paginate :
    (records : List Record) (max_items : ℕ)
    → GoodIds records
    → 0 < max_items
    → collect (length records) records [] max_items ≡ records
collect-paginate records k g pos_k =
    collect-Stands (length records) [] records [] k pos_k (omega arith) g (start refl)
