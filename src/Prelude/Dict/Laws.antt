-- ===== src/Prelude/Dict/Laws.antt =====
-- The laws of the dict operations: look-ups after an update, unique keys, sizes.
use vpnself.Prelude.{
  suc, ◌≤◌, ◌≡◌, refl, inl, inr, Bool, true, none, some, [], ◌∷◌, Eq, if◌then◌else◌, length, arith,
  Bool-cases, All,
}
use vpnself.Prelude.Dict.Defs.{Dict, get, put, remove, keep, contains, IsUnique}

module _ {ℓ κ} {K : Type ℓ} {V : Type κ} ⦃e : Eq K⦄ where
  pub get-put :
      (j k : K) (v : V) (d : Dict K V) → get j (put k v d) ≡ (if e.beq k j then some v else get j d)
  get-put j k v [] = refl
  get-put j k v ((i, w) ∷ d) =
      ground (arith, e.beq_iff i k, e.beq_iff i j, e.beq_iff k j, get-put j k v d)

  pub get-remove :
      (j k : K) (d : Dict K V) → get j (remove k d) ≡ (if e.beq k j then none else get j d)
  get-remove j k [] = ground arith
  get-remove j k ((i, w) ∷ d) =
      ground (arith, e.beq_iff i k, e.beq_iff i j, e.beq_iff k j, get-remove j k d)

  pub get-keep :
      (p : V → Bool) (j : K) (d : Dict K V)
      → IsUnique d
      → get j (keep p d) ≡ elim (get j d) [ none ↦ none | some v ↦ if p v then some v else none ]
  get-keep p j [] h = refl
  get-keep p j ((i, w) ∷ d) h = ground (arith, e.beq_iff i j, get-keep p j d h.1)

  pub put-IsUnique : (k : K) (v : V) (d : Dict K V) → IsUnique d → IsUnique (put k v d)
  put-IsUnique k v [] h = (refl, tt)
  put-IsUnique k v ((i, w) ∷ d) h = elim (Bool-cases (e.beq i k)) [
    | inl q ↦ rw q h
    | inr q ↦
        rw q (ground (arith, get-put i k v d, e.beq_iff i k, e.beq_iff k i), put-IsUnique k v d h.1)
  ]

  pub remove-IsUnique : (k : K) (d : Dict K V) → IsUnique d → IsUnique (remove k d)
  remove-IsUnique k [] h = tt
  remove-IsUnique k ((i, w) ∷ d) h = elim (Bool-cases (e.beq i k)) [
    | inl q ↦ rw q (remove-IsUnique k d h.1)
    | inr q ↦ rw q (ground (arith, get-remove i k d), remove-IsUnique k d h.1)
  ]

  pub keep-IsUnique : (p : V → Bool) (d : Dict K V) → IsUnique d → IsUnique (keep p d)
  keep-IsUnique p [] h = tt
  keep-IsUnique p ((i, w) ∷ d) h = elim (Bool-cases (p w)) [
    | inl q ↦ rw q (rw (get-keep p i d h.1, h.0) refl, keep-IsUnique p d h.1)
    | inr q ↦ rw q (keep-IsUnique p d h.1)
  ]

  -- A write of a new key adds one entry, a write of an old one none.
  pub length-put :
      (k : K) (v : V) (d : Dict K V)
      → length (put k v d) ≡ (if contains k d then length d else suc (length d))
  length-put k v [] = refl
  length-put k v ((i, w) ∷ d) = ground (arith, length-put k v d)

  pub length-remove-le : (k : K) (d : Dict K V) → length (remove k d) ≤ length d
  length-remove-le k [] = omega arith
  length-remove-le k ((i, w) ∷ d) = ground (arith, length-remove-le k d)

  remove_of_absent : (k : K) (d : Dict K V) → get k d ≡ none → remove k d ≡ d
  remove_of_absent k [] h = refl
  remove_of_absent k ((i, w) ∷ d) h = ground (arith, remove_of_absent k d)

  pub length-remove_present :
      (k : K) (d : Dict K V)
      → IsUnique d
      → contains k d ≡ true
      → suc (length (remove k d)) ≡ length d
  length-remove_present k [] h c = cc
  length-remove_present k ((i, w) ∷ d) h c =
      ground (arith, e.beq_iff i k, remove_of_absent k d, length-remove_present k d h.1)

module _ {ℓ κ} {K : Type ℓ} {V : Type κ} where
  pub length-keep-le : (p : V → Bool) (d : Dict K V) → length (keep p d) ≤ length d
  length-keep-le p [] = omega arith
  length-keep-le p ((i, w) ∷ d) = ground (arith, length-keep-le p d)

  -- What is kept passes the test.
  pub All-keep : (p : V → Bool) (d : Dict K V) → All (λ kv. p kv.1 ≡ true) (keep p d)
  All-keep p [] = tt
  All-keep p ((i, w) ∷ d) = elim (Bool-cases (p w)) [
    | inl q ↦ rw q (q, All-keep p d)
    | inr q ↦ rw q (All-keep p d)
  ]

  -- A test of the entries that holds of all holds of those that are kept.
  pub All-keep_of {μ} :
      (P : K × V → Type μ) (p : V → Bool) (d : Dict K V) → All P d → All P (keep p d)
  All-keep_of P p [] h = tt
  All-keep_of P p ((i, w) ∷ d) h = elim (Bool-cases (p w)) [
    | inl q ↦ rw q (h.0, All-keep_of P p d h.1)
    | inr q ↦ rw q (All-keep_of P p d h.1)
  ]

module _ {ℓ κ} {K : Type ℓ} {V : Type κ} ⦃e : Eq K⦄ where
  pub All-put {μ} :
      (Q : V → Type μ) (k : K) (v : V) (d : Dict K V)
      → Q v
      → All (λ kv. Q kv.1) d
      → All (λ kv. Q kv.1) (put k v d)
  All-put Q k v [] q h = (q, tt)
  All-put Q k v ((i, w) ∷ d) q h = elim (Bool-cases (e.beq i k)) [
    | inl same ↦ rw same (q, h.1)
    | inr other ↦ rw other (h.0, All-put Q k v d q h.1)
  ]

  pub All-remove {μ} : (P : K × V → Type μ) (k : K) (d : Dict K V) → All P d → All P (remove k d)
  All-remove P k [] h = tt
  All-remove P k ((i, w) ∷ d) h = elim (Bool-cases (e.beq i k)) [
    | inl same ↦ rw same (All-remove P k d h.1)
    | inr other ↦ rw other (h.0, All-remove P k d h.1)
  ]
