-- ===== src/Prelude/Maps.antt =====
-- Go's `map[string]V`: an association list in which an inserted key replaces the old entry. The
-- order of the list stands for the order in which one `range` visits the map, which Go leaves
-- open; no operation below depends on it.
use mathlib.Core.Path.{◌≡◌, subst}
use mathlib.Core.Logic.{◌≢◌, inl, inr}
use mathlib.Core.List.{List, [], ◌∷◌}
use mathlib.Core.Option.{Option, none, some}
use native.Mathlib.Omega.{arith}
use cf_local.Prelude.Tests.{if◌then◌else◌, Bool-cases, some-injective}
use cf_local.Prelude.Text.{Bytes, equal, equal_iff, equal_refl, equal-ne}

abbrev pub Dict {ℓ} : Type ℓ → Type ℓ
Dict V = List (Bytes × V)

module _ {ℓ} {V : Type ℓ} where
  -- `v, ok := m[k]`
  unfoldable pub lookup : Bytes → Dict V → Option V
  lookup k [] = none
  lookup k ((j, v) ∷ m) = if equal j k then some v else lookup k m

  -- `delete(m, k)`
  unfoldable pub delete : Bytes → Dict V → Dict V
  delete k [] = []
  delete k ((j, v) ∷ m) = let rest = delete k m in if equal j k then rest else (j, v) ∷ rest

  -- `m[k] = v`
  unfoldable pub insert : Bytes → V → Dict V → Dict V
  insert k v m = (k, v) ∷ delete k m

  pub lookup-delete :
      (k j : Bytes) (m : Dict V) → lookup j (delete k m) ≡ (if equal k j then none else lookup j m)
  unfolding lookup delete
  lookup-delete k j [] = ground arith
  lookup-delete k j ((i, v) ∷ m) =
      ground (arith, lookup-delete k j m, equal_iff i k, equal_iff i j, equal_iff k j)

  pub lookup-insert :
      (k j : Bytes) (v : V) (m : Dict V)
      → lookup j (insert k v m) ≡ (if equal k j then some v else lookup j m)
  unfolding lookup insert
  lookup-insert k j v m = ground (arith, lookup-delete k j m)

  pub lookup-insert_self : (k : Bytes) (v : V) (m : Dict V) → lookup k (insert k v m) ≡ some v
  lookup-insert_self k v m = ground (arith, lookup-insert k k v m, equal_refl k)

  pub lookup-insert_ne :
      (k j : Bytes) (v : V) (m : Dict V) → k ≢ j → lookup j (insert k v m) ≡ lookup j m
  lookup-insert_ne k j v m h = ground (arith, lookup-insert k j v m, equal-ne k j h)

  pub lookup-delete_self : (k : Bytes) (m : Dict V) → lookup k (delete k m) ≡ none
  lookup-delete_self k m = ground (arith, lookup-delete k k m, equal_refl k)

pub lookup-delete_ne {ℓ} :
    {V : Type ℓ} (k j : Bytes) (m : Dict V) → k ≢ j → lookup j (delete k m) ≡ lookup j m
lookup-delete_ne k j m h = ground (arith, lookup-delete k j m, equal-ne k j h)

pub ruleset dict_laws = (lookup-insert, lookup-delete)

module _ {ℓ} {V : Type ℓ} where
  -- Every key stands once, as in a Go map: one `range` visits it once.
  abbrev pub Distinct : Dict V → Type ℓ
  Distinct [] = Unit
  Distinct ((k, v) ∷ m) = (lookup k m ≡ none) × Distinct m

  pub Distinct-delete : (k : Bytes) (m : Dict V) → Distinct m → Distinct (delete k m)
  unfolding delete
  Distinct-delete k [] d = tt
  Distinct-delete k ((j, v) ∷ m) d = ground (arith, Distinct-delete k m d.1, lookup-delete k j m)

  pub Distinct-insert : (k : Bytes) (v : V) (m : Dict V) → Distinct m → Distinct (insert k v m)
  unfolding insert
  Distinct-insert k v m d = (lookup-delete_self k m, Distinct-delete k m d)

  -- The values, in the order of the list.
  abbrev pub values : Dict V → List V
  values [] = []
  values ((k, v) ∷ m) = v ∷ values m

module _ {ℓ κ} {V : Type ℓ} (P : Bytes → V → Type κ) where
  -- Every entry of the map, with its key.
  abbrev pub Entries : Dict V → Type (ℓ ⊔ κ)
  Entries m = (k : Bytes) (v : V) → lookup k m ≡ some v → P k v

  pub Entries-insert : (k : Bytes) (v : V) (m : Dict V) → P k v → Entries m → Entries (insert k v m)
  Entries-insert k v m p all j w h = elim (Bool-cases (equal k j)) [
    | inl e ↦
        let now : some v ≡ some w = ground (arith, lookup-insert k j v m) in
        subst (λ i. P i w) ((equal_iff k j).0 e) (subst (λ u. P k u) (some-injective now) p)
    | inr e ↦ all j w (ground (arith, lookup-insert k j v m))
  ]
