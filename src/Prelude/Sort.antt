-- ===== src/Prelude/Sort.antt =====
-- Go's `sort.SliceStable`: insertion, in which equal elements keep their order. What it returns is
-- ordered, has the same elements, and depends on nothing but these where the order tells them apart.
use mathlib.Core.Path.{◌≡◌, refl, sym, ap, ap₂, ◌∙◌, subst}
use mathlib.Core.Logic.{◌⊎◌, inl, inr}
use mathlib.Core.Bool.{Bool, true, false}
use mathlib.Core.List.{List, [], ◌∷◌, ◌++◌, map}
use cf_local.Prelude.Tests.{if◌then◌else◌, Bool-cases}
use cf_local.Prelude.Lists.{All, All2, Any, here, there}

module _ {ℓ} {A : Type ℓ} where
  abbrev pub In : A → List A → Type ℓ
  In a = Any (λ z. z ≡ a)

  abbrev pub Nodup : List A → Type ℓ
  Nodup [] = Unit
  Nodup (x ∷ xs) = (¬ In x xs) × Nodup xs

  pub In-cases : {a x : A} {xs : List A} → In a (x ∷ xs) → (x ≡ a) ⊎ In a xs
  In-cases (here e) = inl e
  In-cases (there i) = inr i

  pub not-In-nil : {a : A} → In a [] → ⊥
  not-In-nil i = elim i [ ]

  pub All-In {κ} : (P : A → Type κ) {a : A} (xs : List A) → All P xs → In a xs → P a
  All-In P [] p i = absurd (not-In-nil i)
  All-In P (x ∷ xs) p i = elim (In-cases i) [ inl e ↦ subst P e p.0 | inr j ↦ All-In P xs p.1 j ]

module _ {ℓ} {A : Type ℓ} (less : A → A → Bool) where
  unfoldable pub sort_insert : A → List A → List A
  sort_insert x [] = x ∷ []
  sort_insert x (y ∷ ys) =
      let later = y ∷ sort_insert x ys in if less y x then later else x ∷ y ∷ ys

  unfoldable pub sort_stable : List A → List A
  unfolding sort_insert
  sort_stable [] = []
  sort_stable (x ∷ xs) = sort_insert x (sort_stable xs)

  abbrev pub Ordered : List A → Type ℓ
  Ordered [] = Unit
  Ordered (x ∷ xs) = All (λ y. less y x ≡ false) xs × Ordered xs

  -- `less` is a strict order whose "not greater" is transitive.
  pub record IsOrder : Type ℓ where
    pub asym : (a b : A) → less a b ≡ true → less b a ≡ false
    pub trans : (a b c : A) → less b a ≡ false → less c b ≡ false → less c a ≡ false

  abbrev Above : A → A → Type 0
  Above x y = less y x ≡ false

  All-sort_insert {κ} :
      (P : A → Type κ) (x : A) (ys : List A) → P x → All P ys → All P (sort_insert x ys)
  unfolding sort_insert
  All-sort_insert P x [] p ps = (p, tt)
  All-sort_insert P x (y ∷ ys) p ps = elim (Bool-cases (less y x)) [
    | inl e ↦ rw e (ps.0, All-sort_insert P x ys p ps.1)
    | inr e ↦ rw e (p, ps)
  ]

  All-Above : IsOrder → (x y : A) (ys : List A) → Above x y → All (Above y) ys → All (Above x) ys
  All-Above o x y [] h above = tt
  All-Above o x y (z ∷ ys) h above = (o.trans x y z h above.0, All-Above o x y ys h above.1)

  Ordered-sort_insert : IsOrder → (x : A) (ys : List A) → Ordered ys → Ordered (sort_insert x ys)
  unfolding sort_insert
  Ordered-sort_insert o x [] d = (tt, tt)
  Ordered-sort_insert o x (y ∷ ys) d = elim (Bool-cases (less y x)) [
    | inl e ↦
        rw e (All-sort_insert (Above y) x ys (o.asym y x e) d.0, Ordered-sort_insert o x ys d.1)
    | inr e ↦ rw e ((e, All-Above o x y ys e d.0), d)
  ]

  pub Ordered-sort_stable : IsOrder → (xs : List A) → Ordered (sort_stable xs)
  unfolding sort_stable
  Ordered-sort_stable o [] = tt
  Ordered-sort_stable o (x ∷ xs) =
      Ordered-sort_insert o x (sort_stable xs) (Ordered-sort_stable o xs)

  In-sort_insert : {a : A} (x : A) (ys : List A) → (x ≡ a) ⊎ In a ys → In a (sort_insert x ys)
  unfolding sort_insert
  In-sort_insert x [] (inl e) = here e
  In-sort_insert x [] (inr i) = absurd (not-In-nil i)
  In-sort_insert {a} x (y ∷ ys) h = elim (Bool-cases (less y x)) [
    | inr e ↦ rw e (elim h [ inl p ↦ here p | inr i ↦ there i ])
    | inl e ↦ rw e (go h (λ k. In-sort_insert x ys k))
  ]
    where
      go :
          (x ≡ a) ⊎ In a (y ∷ ys)
          → ((x ≡ a) ⊎ In a ys → In a (sort_insert x ys))
          → In a (y ∷ sort_insert x ys)
      go (inl p) f = there (f (inl p))
      go (inr i) f = elim (In-cases i) [ inl p ↦ here p | inr k ↦ there (f (inr k)) ]

  In-of_sort_insert : {a : A} (x : A) (ys : List A) → In a (sort_insert x ys) → (x ≡ a) ⊎ In a ys
  unfolding sort_insert
  In-of_sort_insert x [] i = In-cases i
  In-of_sort_insert {a} x (y ∷ ys) i = elim (Bool-cases (less y x)) [
    | inr e ↦ In-cases (rw (e, sort_insert) at i)
    | inl e ↦ go (In-cases (rw (e, sort_insert) at i)) (λ k. In-of_sort_insert x ys k)
  ]
    where
      go :
          (y ≡ a) ⊎ In a (sort_insert x ys)
          → (In a (sort_insert x ys) → (x ≡ a) ⊎ In a ys)
          → (x ≡ a) ⊎ In a (y ∷ ys)
      go (inl p) f = inr (here p)
      go (inr k) f = elim (f k) [ inl p ↦ inl p | inr j ↦ inr (there j) ]

  pub In-sort_stable : {a : A} (xs : List A) → In a xs → In a (sort_stable xs)
  unfolding sort_stable
  In-sort_stable [] i = i
  In-sort_stable (x ∷ xs) i = elim (In-cases i) [
    | inl e ↦ In-sort_insert x (sort_stable xs) (inl e)
    | inr j ↦ In-sort_insert x (sort_stable xs) (inr (In-sort_stable xs j))
  ]

  pub In-of_sort_stable : {a : A} (xs : List A) → In a (sort_stable xs) → In a xs
  unfolding sort_stable
  In-of_sort_stable [] i = i
  In-of_sort_stable (x ∷ xs) i = elim (In-of_sort_insert x (sort_stable xs) i) [
    | inl e ↦ here e
    | inr j ↦ there (In-of_sort_stable xs j)
  ]

  -- Any two elements that the order does not tell apart are one.
  abbrev pub Separates : List A → Type ℓ
  Separates xs = (a b : A) → In a xs → In b xs → Above a b → Above b a → a ≡ b

  abbrev SameElements : List A → List A → Type ℓ
  SameElements xs ys = ((a : A) → In a xs → In a ys) × ((a : A) → In a ys → In a xs)

  same-head :
      (x y : A) (xs ys : List A)
      → Ordered (x ∷ xs)
      → Ordered (y ∷ ys)
      → SameElements (x ∷ xs) (y ∷ ys)
      → Separates (x ∷ xs)
      → x ≡ y
  same-head x y xs ys ox oy same sep = elim (In-cases (same.0 x (here refl))) [
    | inl e ↦ sym e
    | inr i ↦ elim (In-cases (same.1 y (here refl))) [
      | inl e ↦ e
      | inr j ↦
          sep x y (here refl) (there j) (All-In (Above x) xs ox.0 j) (All-In (Above y) ys oy.0 i)
    ]
  ]

  In-tail : (a x y : A) (xs ys : List A) → x ≡ y → (¬ In x xs) → In a xs → In a (y ∷ ys) → In a ys
  In-tail a x y xs ys e new i h = elim (In-cases h) [
    | inr k ↦ k
    | inl p ↦ absurd (new (subst (λ z. In z xs) (sym (e ∙ p)) i))
  ]

  -- Two ordered lists without repetition that have the same elements are one list.
  pub Ordered-unique :
      (xs ys : List A)
      → Nodup xs
      → Nodup ys
      → Ordered xs
      → Ordered ys
      → SameElements xs ys
      → Separates xs
      → xs ≡ ys
  Ordered-unique [] [] nx ny ox oy same sep = refl
  Ordered-unique [] (y ∷ ys) nx ny ox oy same sep = absurd (not-In-nil (same.1 y (here refl)))
  Ordered-unique (x ∷ xs) [] nx ny ox oy same sep = absurd (not-In-nil (same.0 x (here refl)))
  Ordered-unique (x ∷ xs) (y ∷ ys) nx ny ox oy same sep =
      let e = same-head x y xs ys ox oy same sep in
      ap₂ (λ (z : A) (zs : List A). z ∷ zs) e
        (Ordered-unique xs ys nx.1 ny.1 ox.1 oy.1
          (
            λ a i. In-tail a x y xs ys e nx.0 i (same.0 a (there i)),
            λ a i. In-tail a y x ys xs (sym e) ny.0 i (same.1 a (there i)),
          )
          (λ a b i j. sep a b (there i) (there j)))

  -- Sorting forgets the order of its input.
  Nodup-sort_insert : (x : A) (ys : List A) → (¬ In x ys) → Nodup ys → Nodup (sort_insert x ys)
  unfolding sort_insert
  Nodup-sort_insert x [] new d = (not-In-nil, tt)
  Nodup-sort_insert x (y ∷ ys) new d = elim (Bool-cases (less y x)) [
    | inr e ↦ rw e (new, d)
    | inl e ↦ rw e (
      λ i. elim (In-of_sort_insert x ys i) [ inl p ↦ new (here (sym p)) | inr j ↦ d.0 j ],
      Nodup-sort_insert x ys (λ i. new (there i)) d.1,
    )
  ]

  pub Nodup-sort_stable : (xs : List A) → Nodup xs → Nodup (sort_stable xs)
  unfolding sort_stable
  Nodup-sort_stable [] d = tt
  Nodup-sort_stable (x ∷ xs) d =
      Nodup-sort_insert x (sort_stable xs) (λ i. d.0 (In-of_sort_stable xs i))
        (Nodup-sort_stable xs d.1)

  pub sort_stable_unique :
      (xs ys : List A)
      → IsOrder
      → Nodup xs
      → Nodup ys
      → ((a : A) → In a xs → In a ys)
      → ((a : A) → In a ys → In a xs)
      → Separates xs
      → sort_stable xs ≡ sort_stable ys
  sort_stable_unique xs ys o nx ny to from sep =
      Ordered-unique (sort_stable xs) (sort_stable ys) (Nodup-sort_stable xs nx)
        (Nodup-sort_stable ys ny) (Ordered-sort_stable o xs) (Ordered-sort_stable o ys)
        (
          λ a i. In-sort_stable ys (to a (In-of_sort_stable xs i)),
          λ a i. In-sort_stable xs (from a (In-of_sort_stable ys i)),
        )
        (λ a b i j. sep a b (In-of_sort_stable xs i) (In-of_sort_stable xs j))

pub In-map {ℓ κ} :
    {A : Type ℓ} {B : Type κ} (f : A → B) {a : A} (xs : List A) → In a xs → In (f a) (map f xs)
In-map f [] i = absurd (not-In-nil i)
In-map f (x ∷ xs) i = elim (In-cases i) [ inl e ↦ here (ap f e) | inr j ↦ there (In-map f xs j) ]

module _ {ℓ} {A : Type ℓ} where
  pub In-appendl : {a : A} (xs ys : List A) → In a xs → In a (xs ++ ys)
  In-appendl [] ys i = absurd (not-In-nil i)
  In-appendl (x ∷ xs) ys i = elim (In-cases i) [
    | inl e ↦ here e
    | inr j ↦ there (In-appendl xs ys j)
  ]

  pub In-appendr : {a : A} (xs ys : List A) → In a ys → In a (xs ++ ys)
  In-appendr [] ys i = i
  In-appendr (x ∷ xs) ys i = there (In-appendr xs ys i)

module _ {ℓ ι} {A : Type ℓ} {B : Type ι} (R : A → B → Type 0) where
  pub All2-In : {a : A} (xs : List A) (ys : List B) → All2 R xs ys → In a xs → (y : B) × R a y
  All2-In [] ys h i = absurd (not-In-nil i)
  All2-In (x ∷ xs) [] h i = absurd h
  All2-In (x ∷ xs) (y ∷ ys) h i = elim (In-cases i) [
    | inl e ↦ (y, subst (λ z. R z y) e h.0)
    | inr j ↦ All2-In xs ys h.1 j
  ]

  pub All-of_All2 {κ} :
      (P : A → Type κ) (xs : List A) (ys : List B)
      → ((x : A) (y : B) → R x y → P x)
      → All2 R xs ys
      → All P xs
  All-of_All2 P [] [] f h = tt
  All-of_All2 P [] (y ∷ ys) f h = absurd h
  All-of_All2 P (x ∷ xs) [] f h = absurd h
  All-of_All2 P (x ∷ xs) (y ∷ ys) f h = (f x y h.0, All-of_All2 P xs ys f h.1)

  pub All-of_All2r {κ} :
      (P : B → Type κ) (xs : List A) (ys : List B)
      → ((x : A) (y : B) → R x y → P y)
      → All2 R xs ys
      → All P ys
  All-of_All2r P [] [] f h = tt
  All-of_All2r P [] (y ∷ ys) f h = absurd h
  All-of_All2r P (x ∷ xs) [] f h = absurd h
  All-of_All2r P (x ∷ xs) (y ∷ ys) f h = (f x y h.0, All-of_All2r P xs ys f h.1)

pub In-of_append {ℓ} : {A : Type ℓ} {a : A} (xs ys : List A) → In a (xs ++ ys) → In a xs ⊎ In a ys
In-of_append [] ys i = inr i
In-of_append (x ∷ xs) ys i = elim (In-cases i) [
  | inl e ↦ inl (here e)
  | inr j ↦ elim (In-of_append xs ys j) [ inl k ↦ inl (there k) | inr k ↦ inr k ]
]
