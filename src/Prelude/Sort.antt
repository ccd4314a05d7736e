-- ===== src/Prelude/Sort.antt =====
-- Python's `sorted`: a stable sort. `before y x` says that `y` has to stand in front of `x`.
use vpnself.Prelude.Tests.{if◌then◌else◌, Bool-cases}
use vpnself.Prelude.Lists.{length, any, filter, All}
use Prim.Native.Nat.{suc}
use mathlib.Core.Path.{◌≡◌, refl, ap, ◌∙◌}
use mathlib.Core.Logic.{inl, inr}
use mathlib.Core.Bool.{Bool, true, false, ◌||◌}
use mathlib.Core.List.{List, [], ◌∷◌}
use native.Mathlib.Omega.{arith}

module _ {ℓ} {A : Type ℓ} where
  unfoldable pub insert_by : (A → A → Bool) → A → List A → List A
  insert_by before x [] = x ∷ []
  insert_by before x (y ∷ ys) = if before y x then y ∷ insert_by before x ys else x ∷ y ∷ ys

  unfoldable pub sort_by : (A → A → Bool) → List A → List A
  unfolding insert_by
  sort_by before [] = []
  sort_by before (x ∷ xs) = insert_by before x (sort_by before xs)

module _ {ℓ} {A : Type ℓ} (before : A → A → Bool) where
  length-insert_by : (x : A) (xs : List A) → length (insert_by before x xs) ≡ suc (length xs)
  unfolding insert_by
  length-insert_by x [] = refl
  length-insert_by x (y ∷ ys) = ground (arith, length-insert_by x ys)

  pub length-sort_by : (xs : List A) → length (sort_by before xs) ≡ length xs
  unfolding sort_by
  length-sort_by [] = refl
  length-sort_by (x ∷ xs) = length-insert_by x (sort_by before xs) ∙ ap suc (length-sort_by xs)

  any-insert_by :
      (p : A → Bool) (x : A) (xs : List A) → any p (insert_by before x xs) ≡ (p x || any p xs)
  unfolding insert_by
  any-insert_by p x [] = refl
  any-insert_by p x (y ∷ ys) = ground (arith, any-insert_by p x ys)

  pub any-sort_by : (p : A → Bool) (xs : List A) → any p (sort_by before xs) ≡ any p xs
  unfolding sort_by
  any-sort_by p [] = refl
  any-sort_by p (x ∷ xs) = ground (arith, any-insert_by p x (sort_by before xs), any-sort_by p xs)

  All-insert_by {κ} :
      (P : A → Type κ) (x : A) (xs : List A) → P x → All P xs → All P (insert_by before x xs)
  unfolding insert_by
  All-insert_by P x [] h k = (h, tt)
  All-insert_by P x (y ∷ ys) h k = elim (Bool-cases (before y x)) [
    | inl e ↦ rw e (k.0, All-insert_by P x ys h k.1)
    | inr e ↦ rw e (h, k)
  ]

  pub All-sort_by {κ} : (P : A → Type κ) (xs : List A) → All P xs → All P (sort_by before xs)
  unfolding sort_by
  All-sort_by P [] h = tt
  All-sort_by P (x ∷ xs) h = All-insert_by P x (sort_by before xs) h.0 (All-sort_by P xs h.1)

  -- No element has to stand in front of one that is listed before it.
  abbrev pub IsSorted : List A → Type ℓ
  IsSorted [] = Unit {ℓ}
  IsSorted (x ∷ xs) = All (λ y. before y x ≡ false) xs × IsSorted xs

  -- `before` is a strict weak order, as a comparison of keys is.
  pub record IsOrder : Type ℓ where
    pub asym : (x y : A) → before y x ≡ true → before x y ≡ false
    pub steps : (x y z : A) → before y x ≡ false → before z y ≡ false → before z x ≡ false

  All-steps :
      (o : IsOrder) (x y : A) (zs : List A)
      → before y x ≡ false
      → All (λ z. before z y ≡ false) zs
      → All (λ z. before z x ≡ false) zs
  All-steps o x y [] h k = tt
  All-steps o x y (z ∷ zs) h k = (o.steps x y z h k.0, All-steps o x y zs h k.1)

  insert_by-IsSorted :
      (o : IsOrder) (x : A) (xs : List A) → IsSorted xs → IsSorted (insert_by before x xs)
  unfolding insert_by
  insert_by-IsSorted o x [] h = (tt, tt)
  insert_by-IsSorted o x (y ∷ ys) h = elim (Bool-cases (before y x)) [
    | inl e ↦ rw e (
      All-insert_by (λ z. before z y ≡ false) x ys (o.asym x y e) h.0,
      insert_by-IsSorted o x ys h.1,
    )
    | inr e ↦ rw e ((e, All-steps o x y ys e h.0), h)
  ]

  pub sort_by-IsSorted : (o : IsOrder) (xs : List A) → IsSorted (sort_by before xs)
  unfolding sort_by
  sort_by-IsSorted o [] = tt
  sort_by-IsSorted o (x ∷ xs) = insert_by-IsSorted o x (sort_by before xs) (sort_by-IsSorted o xs)

  filter-insert_by :
      (p : A → Bool) (x : A) (xs : List A)
      → ((a b : A) → p a ≡ true → p b ≡ true → before b a ≡ false)
      → filter p (insert_by before x xs) ≡ filter p (x ∷ xs)
  unfolding insert_by
  filter-insert_by p x [] h = refl
  filter-insert_by p x (y ∷ ys) h = ground (arith, h x y, filter-insert_by p x ys h)

  -- Stability: elements of which none has to stand in front of another keep their order.
  pub filter-sort_by :
      (p : A → Bool) (xs : List A)
      → ((a b : A) → p a ≡ true → p b ≡ true → before b a ≡ false)
      → filter p (sort_by before xs) ≡ filter p xs
  unfolding sort_by
  filter-sort_by p [] h = refl
  filter-sort_by p (x ∷ xs) h =
      ground (arith, filter-insert_by p x (sort_by before xs) h, filter-sort_by p xs h)

  insert_by_first :
      (x : A) (xs : List A) → All (λ y. before y x ≡ false) xs → insert_by before x xs ≡ x ∷ xs
  unfolding insert_by
  insert_by_first x [] h = refl
  insert_by_first x (y ∷ ys) h = rw h.0 refl

  -- A list in order is left as it is.
  pub sort_by_of_IsSorted : (xs : List A) → IsSorted xs → sort_by before xs ≡ xs
  unfolding sort_by
  sort_by_of_IsSorted [] h = refl
  sort_by_of_IsSorted (x ∷ xs) h = rw (sort_by_of_IsSorted xs h.1) (insert_by_first x xs h.0)
