-- ===== src/Invalidation/Store/Listing.antt =====
-- `List`: the records of one distribution, newest first, whatever the order of the map.
use cf_local.Prelude.{
  ◌≡◌, sym, ◌∙◌, ◌↔◌, Bool, false, some, arith, Bytes, equal, equal_iff, lookup, ok, values,
}
use cf_local.Prelude.Sort.{
  In, Nodup, Ordered, IsOrder, Ordered-sort_stable, In-sort_stable, In-of_sort_stable,
  sort_stable_unique, Nodup-sort_stable,
}
use cf_local.Prelude.Values.{
  In-keep, In-of_keep, Nodup-keep, Keyed, lookup-of_In, In-of_lookup, Nodup-values,
}
use cf_local.Prelude.Order.{less_asym, less_trans, less_antisym}
use cf_local.Storage.{Bbolt, Json}
use cf_local.Invalidation.Store.{Record, record_less, of_distribution, BoltStore, list, get}
use cf_local.Invalidation.Store.Valid.{IsValid}
use cf_local.Invalidation.Store.Restart.{get_iff}

record_less-IsOrder : IsOrder record_less
unfolding record_less
record_less-IsOrder = record {
  asym = λ a b h. ground (arith, less_asym a.id b.id);
  trans = λ a b c h k. ground (arith, less_trans a.id b.id c.id);
}

same_id : (a b : Record) → record_less b a ≡ false → record_less a b ≡ false → a.id ≡ b.id
unfolding record_less
same_id a b h k = less_antisym a.id b.id (ground arith) (ground arith)

module _ (bolt : Bbolt) (json : Json Record) where
  Keyed-by_id :
      (s : BoltStore bolt json) → IsValid bolt json s → Keyed (λ (r : Record). r.id) s.by_id
  Keyed-by_id s v k r e = (v.good k r e).keyed

  -- `List` of a valid store returns exactly the records that `Get` answers for under the distribution.
  pub list_iff :
      (distribution_id : Bytes) (s : BoltStore bolt json) (r : Record)
      → IsValid bolt json s
      → In r (list bolt json distribution_id s) ↔ (get bolt json distribution_id r.id s ≡ ok r)
  unfolding list of_distribution
  list_iff d s r v =
      let p : Record → Bool = λ q. equal q.distribution_id d in
      (
        λ i.
            let (j, e) = In-of_keep p (values s.by_id) (In-of_sort_stable record_less _ i) in
            (get_iff bolt json d r.id s r).1 (
              lookup-of_In (λ (q : Record). q.id) s.by_id v.distinct (Keyed-by_id s v) j,
              (equal_iff _ _).0 e,
            ),
        λ g.
            let (found, e) = (get_iff bolt json d r.id s r).0 g in
            In-sort_stable record_less _ (
              In-keep p (values s.by_id) ((equal_iff _ _).1 e)
                (In-of_lookup (λ (q : Record). q.id) r.id s.by_id found)),
      )

  -- `List` is ordered by creation time, newest first, and then by ID.
  pub list-Ordered :
      (distribution_id : Bytes) (s : BoltStore bolt json)
      → Ordered record_less (list bolt json distribution_id s)
  unfolding list
  list-Ordered d s =
      Ordered-sort_stable record_less record_less-IsOrder (of_distribution d (values s.by_id))

  pub list-Nodup :
      (distribution_id : Bytes) (s : BoltStore bolt json)
      → IsValid bolt json s
      → Nodup (list bolt json distribution_id s)
  unfolding list of_distribution
  list-Nodup d s v = Nodup-sort_stable record_less _ (
      Nodup-keep (λ (q : Record). equal q.distribution_id d) (values s.by_id)
        (Nodup-values (λ (q : Record). q.id) s.by_id v.distinct (Keyed-by_id s v)))

  record_less-separates :
      (s : BoltStore bolt json) (a b : Record)
      → lookup a.id s.by_id ≡ some a
      → lookup b.id s.by_id ≡ some b
      → record_less b a ≡ false
      → record_less a b ≡ false
      → a ≡ b
  record_less-separates s a b la lb h k =
      let there : lookup a.id s.by_id ≡ some b = rw (same_id a b h k) lb in ground arith

  -- Two valid stores that answer alike at every ID list alike, in the same order: the order in which
  -- Go ranges over the map is not seen.
  pub list_unique :
      (distribution_id : Bytes) (s t : BoltStore bolt json)
      → IsValid bolt json s
      → IsValid bolt json t
      → ((id : Bytes) → lookup id s.by_id ≡ lookup id t.by_id)
      → list bolt json distribution_id s ≡ list bolt json distribution_id t
  unfolding list of_distribution
  list_unique d s t v w same =
      let p : Record → Bool = λ q. equal q.distribution_id d in
      let key : Record → Bytes = λ q. q.id in
      let keyed = Keyed-by_id s v in
      let keyed' = Keyed-by_id t w in
      sort_stable_unique record_less _ _ record_less-IsOrder
        (Nodup-keep p _ (Nodup-values key s.by_id v.distinct keyed))
        (Nodup-keep p _ (Nodup-values key t.by_id w.distinct keyed'))
        (λ a i.
          let (j, e) = In-of_keep p (values s.by_id) i in
          In-keep p (values t.by_id) e (
            In-of_lookup key a.id t.by_id
              (sym (same a.id) ∙ lookup-of_In key s.by_id v.distinct keyed j)))
        (λ a i.
          let (j, e) = In-of_keep p (values t.by_id) i in
          In-keep p (values s.by_id) e (
            In-of_lookup key a.id s.by_id
              (same a.id ∙ lookup-of_In key t.by_id w.distinct keyed' j)))
        (λ a b i j.
          record_less-separates s a b
            (lookup-of_In key s.by_id v.distinct keyed (In-of_keep p (values s.by_id) i).0)
            (lookup-of_In key s.by_id v.distinct keyed (In-of_keep p (values s.by_id) j).0))
