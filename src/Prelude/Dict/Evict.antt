-- ===== src/Prelude/Dict/Evict.antt =====
-- The eviction that the caches of client/core/router.py and server/forward_proxy.py share:
-- `for h in sorted(d.items(), key=...)[:n]: del d[h]`.
use vpnself.Prelude.{
  ℕ, zero, suc, ◌+◌, ◌≤◌, ◌≡◌, refl, ap, inl, inr, Bool, true, false, none, some, List, [], ◌∷◌,
  ◌++◌, Eq, if◌then◌else◌, length, arith, Bool-cases, ltb, take, drop, All, any, take-append-drop,
  length-take,
}
use vpnself.Prelude.Sort.{sort_by, insert_by, IsSorted, IsOrder, sort_by-IsSorted, length-sort_by}
use vpnself.Prelude.Dict.Defs.{Dict, get, remove, keys, contains, remove_all, IsUnique}
use vpnself.Prelude.Dict.Laws.{All-remove, get-remove, remove-IsUnique, length-remove_present}

module _ {ℓ κ} {K : Type ℓ} {V : Type κ} where
  -- `lambda kv: kv[1]...`, ascending.
  abbrev pub sooner : (V → ℕ) → K × V → K × V → Bool
  sooner key a b = ltb (key a.1) (key b.1)

  sooner-IsOrder : (key : V → ℕ) → IsOrder (sooner key)
  sooner-IsOrder key = record { asym = λ x y h. ground arith; steps = λ x y z h k. ground arith }

module _ {ℓ} {K : Type ℓ} ⦃e : Eq K⦄ where
  abbrev is_in : K → List K → Bool
  is_in k ks = any (λ j. e.beq j k) ks

module _ {ℓ κ} {K : Type ℓ} {V : Type κ} ⦃e : Eq K⦄ where
  unfoldable pub evict : (V → ℕ) → ℕ → Dict K V → Dict K V
  unfolding sort_by
  evict key n d = remove_all (keys (take n (sort_by (sooner key) d))) d

  get-remove_all :
      (j : K) (ks : List K) (d : Dict K V)
      → get j (remove_all ks d) ≡ (if is_in j ks then none else get j d)
  get-remove_all j [] d = refl
  get-remove_all j (k ∷ ks) d = ground (arith, get-remove_all j ks (remove k d), get-remove j k d)

  remove_all-IsUnique : (ks : List K) (d : Dict K V) → IsUnique d → IsUnique (remove_all ks d)
  remove_all-IsUnique [] d h = h
  remove_all-IsUnique (k ∷ ks) d h = remove_all-IsUnique ks (remove k d) (remove-IsUnique k d h)

  -- Distinct keys that are all there.
  abbrev AllPresent : List K → Dict K V → Type 0
  AllPresent [] d = Unit {0}
  AllPresent (k ∷ ks) d = (contains k d ≡ true) × (is_in k ks ≡ false) × AllPresent ks d

  remove-AllPresent :
      (k : K) (ks : List K) (d : Dict K V)
      → is_in k ks ≡ false
      → AllPresent ks d
      → AllPresent ks (remove k d)
  remove-AllPresent k [] d h p = tt
  remove-AllPresent k (j ∷ ks) d h p = (
    ground (arith, get-remove j k d, e.beq_iff j k, e.beq_iff k j),
    p.1,
    remove-AllPresent k ks d (ground arith) p.2,
  )

  length-remove_all :
      (ks : List K) (d : Dict K V)
      → IsUnique d
      → AllPresent ks d
      → length (remove_all ks d) + length ks ≡ length d
  length-remove_all [] d h p = omega arith
  length-remove_all (k ∷ ks) d h p = omega (
    arith,
    length-remove_all ks (remove k d) (remove-IsUnique k d h) (remove-AllPresent k ks d p.1 p.2),
    length-remove_present k d h p.0,
  )

  get-insert_by :
      (before : K × V → K × V → Bool) (j i : K) (w : V) (d : Dict K V)
      → get i d ≡ none
      → get j (insert_by before (i, w) d) ≡ (if e.beq i j then some w else get j d)
  unfolding insert_by
  get-insert_by before j i w [] h = refl
  get-insert_by before j i w ((i', w') ∷ d) h =
      ground (arith, e.beq_iff i' i, e.beq_iff i' j, e.beq_iff i j, get-insert_by before j i w d)

  pub get-sort_by :
      (before : K × V → K × V → Bool) (j : K) (d : Dict K V)
      → IsUnique d
      → get j (sort_by before d) ≡ get j d
  unfolding sort_by
  get-sort_by before j [] h = refl
  get-sort_by before j ((i, w) ∷ d) h = ground (
    arith,
    get-insert_by before j i w (sort_by before d),
    get-sort_by before i d h.1,
    get-sort_by before j d h.1,
  )

  insert_by-IsUnique :
      (before : K × V → K × V → Bool) (i : K) (w : V) (d : Dict K V)
      → get i d ≡ none
      → IsUnique d
      → IsUnique (insert_by before (i, w) d)
  unfolding insert_by
  insert_by-IsUnique before i w [] h u = (refl, tt)
  insert_by-IsUnique before i w ((i', w') ∷ d) h u = ground (
    arith,
    e.beq_iff i' i,
    e.beq_iff i i',
    get-insert_by before i' i w d,
    insert_by-IsUnique before i w d,
  )

  pub sort_by-IsUnique :
      (before : K × V → K × V → Bool) (d : Dict K V) → IsUnique d → IsUnique (sort_by before d)
  unfolding sort_by
  sort_by-IsUnique before [] h = tt
  sort_by-IsUnique before ((i, w) ∷ d) h =
      insert_by-IsUnique before i w (sort_by before d) (ground (arith, get-sort_by before i d h.1))
        (sort_by-IsUnique before d h.1)

  get-append :
      (j : K) (d d' : Dict K V) → get j (d ++ d') ≡ (if is_in j (keys d) then get j d else get j d')
  get-append j [] d' = refl
  get-append j ((i, w) ∷ d) d' = ground (arith, get-append j d d')

  contains_of_is_in : (j : K) (d : Dict K V) → is_in j (keys d) ≡ contains j d
  contains_of_is_in j [] = refl
  contains_of_is_in j ((i, w) ∷ d) = ground (arith, contains_of_is_in j d)

  pub take-IsUnique : (n : ℕ) (d : Dict K V) (j : K) → get j d ≡ none → get j (take n d) ≡ none
  take-IsUnique zero d j h = refl
  take-IsUnique (suc n) [] j h = refl
  take-IsUnique (suc n) ((i, w) ∷ d) j h = ground (arith, take-IsUnique n d j)

  take-AllPresent :
      (n : ℕ) (s d : Dict K V)
      → IsUnique s
      → ((j : K) → contains j s ≡ true → contains j d ≡ true)
      → AllPresent (keys (take n s)) d
  take-AllPresent zero s d u h = tt
  take-AllPresent (suc n) [] d u h = tt
  take-AllPresent (suc n) ((i, w) ∷ s) d u h = (
    h i (ground (arith, (e.beq_iff i i).1 refl)),
    rw (contains_of_is_in i (take n s), take-IsUnique n s i u.0) refl,
    take-AllPresent n s d u.1 (λ j c. h j (ground arith)),
  )

  length-keys : (d : Dict K V) → length (keys d) ≡ length d
  length-keys [] = refl
  length-keys ((i, w) ∷ d) = ap suc (length-keys d)

  -- Evicting `n` of at least `n` entries leaves exactly the others.
  pub length-evict :
      (key : V → ℕ) (n : ℕ) (d : Dict K V)
      → IsUnique d
      → n ≤ length d
      → length (evict key n d) + n ≡ length d
  unfolding evict
  length-evict key n d u h =
      let s = sort_by (sooner key) d in
      omega (
        arith,
        length-remove_all (keys (take n s)) d u (
            take-AllPresent n s d (sort_by-IsUnique _ d u)
              (λ j c. rw (← get-sort_by (sooner key) j d u) c)),
        length-keys (take n s),
        length-take n s,
        length-sort_by (sooner key) d,
      )

  All-remove_all {μ} :
      (P : K × V → Type μ) (ks : List K) (d : Dict K V) → All P d → All P (remove_all ks d)
  All-remove_all P [] d h = h
  All-remove_all P (k ∷ ks) d h = All-remove_all P ks (remove k d) (All-remove P k d h)

  pub All-evict {μ} :
      (P : K × V → Type μ) (key : V → ℕ) (n : ℕ) (d : Dict K V) → All P d → All P (evict key n d)
  unfolding evict
  All-evict P key n d h = All-remove_all P (keys (take n (sort_by (sooner key) d))) d h

  pub evict-IsUnique : (key : V → ℕ) (n : ℕ) (d : Dict K V) → IsUnique d → IsUnique (evict key n d)
  unfolding evict
  evict-IsUnique key n d u = remove_all-IsUnique (keys (take n (sort_by (sooner key) d))) d u

  -- Eviction changes no entry that it leaves.
  pub get-evict :
      (key : V → ℕ) (n : ℕ) (d : Dict K V) (k : K) (v : V)
      → get k (evict key n d) ≡ some v
      → get k d ≡ some v
  unfolding evict
  get-evict key n d k v h =
      ground (arith, get-remove_all k (keys (take n (sort_by (sooner key) d))) d)

  All-get {μ} :
      (P : K × V → Type μ) (d : Dict K V) (k : K) (v : V)
      → ((i j : K) (w : V) → i ≡ j → P (i, w) → P (j, w))
      → All P d
      → get k d ≡ some v
      → P (k, v)
  All-get P [] k v c h g = cc
  All-get P ((i, w) ∷ d) k v c h g = elim (Bool-cases (e.beq i k)) [
    | inl q ↦ let same : w ≡ v = ground arith in rw (← same) (c i k w ((e.beq_iff i k).0 q) h.0)
    | inr q ↦ All-get P d k v c h.1 (rw q at g)
  ]

  front_sooner :
      (key : V → ℕ) (t r : Dict K V) (j k : K) (w v : V)
      → IsSorted (sooner key) (t ++ r)
      → get j t ≡ some w
      → get k r ≡ some v
      → key w ≤ key v
  front_sooner key [] r j k w v s gj gk = cc
  front_sooner key ((i, x) ∷ t) r j k w v s gj gk = elim (Bool-cases (e.beq i j)) [
    | inl q ↦
        let same : x ≡ w = ground arith in
        ground (
          arith,
          All-get (λ z. ltb (key z.1) (key x) ≡ false) r k v (λ a b y p h. h) (behind t s.0) gk,
        )
    | inr q ↦ front_sooner key t r j k w v s.1 (rw q at gj) gk
  ]
    where
      behind :
          (t' : Dict K V)
          → All (λ z. ltb (key z.1) (key x) ≡ false) (t' ++ r)
          → All (λ z. ltb (key z.1) (key x) ≡ false) r
      behind [] h = h
      behind (z ∷ zs) h = behind zs h.1

  -- Every evicted entry expires no later than any that stays.
  pub evict_soonest :
      (key : V → ℕ) (n : ℕ) (d : Dict K V) (j k : K) (w v : V)
      → IsUnique d
      → get j d ≡ some w
      → get j (evict key n d) ≡ none
      → get k (evict key n d) ≡ some v
      → key w ≤ key v
  unfolding evict
  evict_soonest key n d j k w v u gj ej ek =
      let s = sort_by (sooner key) d in
      let whole : take n s ++ drop n s ≡ s = take-append-drop n s in
      let sorted : IsSorted (sooner key) (take n s ++ drop n s) =
        rw whole (sort_by-IsSorted _ (sooner-IsOrder key) d) in
      let at_j : get j (take n s ++ drop n s) ≡ some w =
        rw (whole, get-sort_by (sooner key) j d u) gj in
      let at_k : get k (take n s ++ drop n s) ≡ get k d =
        rw whole (get-sort_by (sooner key) k d u) in
      front_sooner key (take n s) (drop n s) j k w v sorted
        (ground
          (arith, at_j, get-append j (take n s) (drop n s), get-remove_all j (keys (take n s)) d))
        (ground
          (arith, at_k, get-append k (take n s) (drop n s), get-remove_all k (keys (take n s)) d))
