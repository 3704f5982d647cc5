-- ===== src/Prelude/Values.antt =====
-- The values of a map whose keys are a field of its values, as a list without repetition.
use mathlib.Core.Path.{◌≡◌, sym, ◌∙◌, ap}
use mathlib.Core.Logic.{◌⊎◌, inl, inr}
use mathlib.Core.Bool.{Bool, true, false}
use mathlib.Core.List.{List, [], ◌∷◌}
use mathlib.Core.Option.{some}
use native.Mathlib.Omega.{arith}
use cf_local.Prelude.Tests.{Bool-cases}
use cf_local.Prelude.Lists.{here, there, keep}
use cf_local.Prelude.Text.{Bytes, equal, equal_iff, equal_refl}
use cf_local.Prelude.Maps.{Dict, lookup, Distinct, values}
use cf_local.Prelude.Sort.{In, Nodup, In-cases, not-In-nil}

module _ {ℓ} {A : Type ℓ} (p : A → Bool) where
  pub In-keep : {a : A} (xs : List A) → p a ≡ true → In a xs → In a (keep p xs)
  In-keep [] h i = absurd (not-In-nil i)
  In-keep {a} (x ∷ xs) h i = elim (Bool-cases (p x)) [
    | inl e ↦ rw (e, keep) (now (In-cases i) (λ j. In-keep xs h j))
    | inr e ↦ rw (e, keep) (later e (In-cases i) (λ j. In-keep xs h j))
  ]
    where
      now : (x ≡ a) ⊎ In a xs → (In a xs → In a (keep p xs)) → In a (x ∷ keep p xs)
      now (inl q) f = here q
      now (inr j) f = there (f j)

      later : p x ≡ false → (x ≡ a) ⊎ In a xs → (In a xs → In a (keep p xs)) → In a (keep p xs)
      later n (inl q) f = absurd (ground (arith, ap p q))
      later n (inr j) f = f j

  pub In-of_keep : {a : A} (xs : List A) → In a (keep p xs) → In a xs × (p a ≡ true)
  In-of_keep [] i = absurd (not-In-nil i)
  In-of_keep {a} (x ∷ xs) i = elim (Bool-cases (p x)) [
    | inl e ↦ now e (In-cases (rw (e, keep) at i)) (λ j. In-of_keep xs j)
    | inr e ↦ later (rw (e, keep) at i) (λ j. In-of_keep xs j)
  ]
    where
      now :
          p x ≡ true
          → (x ≡ a) ⊎ In a (keep p xs)
          → (In a (keep p xs) → In a xs × (p a ≡ true))
          → In a (x ∷ xs) × (p a ≡ true)
      now e (inl q) f = (here q, rw (← q) e)
      now e (inr j) f = let (k, h) = f j in (there k, h)

      later :
          In a (keep p xs)
          → (In a (keep p xs) → In a xs × (p a ≡ true))
          → In a (x ∷ xs) × (p a ≡ true)
      later j f = let (k, h) = f j in (there k, h)

  pub Nodup-keep : (xs : List A) → Nodup xs → Nodup (keep p xs)
  Nodup-keep [] d = tt
  Nodup-keep (x ∷ xs) d = elim (Bool-cases (p x)) [
    | inl e ↦ rw (e, keep) (λ i. d.0 (In-of_keep xs i).0, Nodup-keep xs d.1)
    | inr e ↦ rw (e, keep) (Nodup-keep xs d.1)
  ]

module _ {ℓ} {V : Type ℓ} (key : V → Bytes) where
  -- Each value stands under its own key.
  abbrev pub Keyed : Dict V → Type ℓ
  Keyed m = (k : Bytes) (v : V) → lookup k m ≡ some v → key v ≡ k

  Keyed-tail :
      (k : Bytes) (v : V) (m : Dict V) → Distinct ((k, v) ∷ m) → Keyed ((k, v) ∷ m) → Keyed m
  Keyed-tail k v m d h j w e = h j w (unfold lookup in ground (arith, equal_iff k j, d.0))

  head_key : (k : Bytes) (v : V) (m : Dict V) → Keyed ((k, v) ∷ m) → key v ≡ k
  head_key k v m h = h k v (unfold lookup in ground (arith, equal_refl k))

  lookup-tail :
      (k j : Bytes) (v w : V) (m : Dict V)
      → Distinct ((k, v) ∷ m)
      → lookup j m ≡ some w
      → lookup j ((k, v) ∷ m) ≡ some w
  unfolding lookup
  lookup-tail k j v w m d e = ground (arith, equal_iff k j, d.0)

  lookup-head : (k j : Bytes) (v : V) (m : Dict V) → k ≡ j → lookup j ((k, v) ∷ m) ≡ some v
  unfolding lookup
  lookup-head k j v m e = ground (arith, equal_iff k j)

  pub lookup-of_In :
      {v : V} (m : Dict V) → Distinct m → Keyed m → In v (values m) → lookup (key v) m ≡ some v
  lookup-of_In [] d h i = absurd (not-In-nil i)
  lookup-of_In {v} ((k, w) ∷ m) d h i = elim (In-cases i) [
    | inl e ↦ lookup-head k (key v) w m (sym (head_key k w m h) ∙ ap key e) ∙ ap some e
    | inr j ↦ lookup-tail k (key v) w v m d (lookup-of_In m d.1 (Keyed-tail k w m d h) j)
  ]

  pub In-of_lookup : {v : V} (k : Bytes) (m : Dict V) → lookup k m ≡ some v → In v (values m)
  unfolding lookup
  In-of_lookup k [] e = cc
  In-of_lookup k ((j, w) ∷ m) e = elim (Bool-cases (equal j k)) [
    | inl x ↦ here (ground arith)
    | inr x ↦ there (In-of_lookup k m (ground arith))
  ]

  pub Nodup-values : (m : Dict V) → Distinct m → Keyed m → Nodup (values m)
  Nodup-values [] d h = tt
  Nodup-values ((k, v) ∷ m) d h = (
    λ i.
        let found = lookup-of_In m d.1 (Keyed-tail k v m d h) i in
        let at_k = rw (head_key k v m h) at found in absurd (ground (arith, d.0)),
    Nodup-values m d.1 (Keyed-tail k v m d h),
  )
