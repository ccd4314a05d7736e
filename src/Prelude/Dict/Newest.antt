-- ===== src/Prelude/Dict/Newest.antt =====
-- `dict(sorted(d.items(), key=..., reverse=True)[:n])`, the cap of client/core/circuit_breaker.py.
use vpnself.Prelude.{
  ℕ, zero, suc, ◌≤◌, Bool, [], ◌∷◌, Eq, length, arith, ltb, take, All, All-take, length-take,
}
use vpnself.Prelude.Sort.{sort_by, All-sort_by}
use vpnself.Prelude.Dict.Defs.{Dict, IsUnique}
use vpnself.Prelude.Dict.Evict.{take-IsUnique, sort_by-IsUnique}

module _ {ℓ κ} {K : Type ℓ} {V : Type κ} where
  -- Descending by the key.
  abbrev later : (V → ℕ) → K × V → K × V → Bool
  later key a b = ltb (key b.1) (key a.1)

  unfoldable pub newest : (V → ℕ) → ℕ → Dict K V → Dict K V
  newest key n d = take n (sort_by (later key) d)

  pub length-newest : (key : V → ℕ) (n : ℕ) (d : Dict K V) → length (newest key n d) ≤ n
  unfolding newest
  length-newest key n d = omega (arith, length-take n (sort_by (later key) d))

  pub All-newest {μ} :
      (P : K × V → Type μ) (key : V → ℕ) (n : ℕ) (d : Dict K V) → All P d → All P (newest key n d)
  unfolding newest
  All-newest P key n d h = All-take P n (sort_by (later key) d) (All-sort_by (later key) P d h)

module _ {ℓ κ} {K : Type ℓ} {V : Type κ} ⦃e : Eq K⦄ where
  IsUnique-take : (n : ℕ) (d : Dict K V) → IsUnique d → IsUnique (take n d)
  IsUnique-take zero d h = tt
  IsUnique-take (suc n) [] h = tt
  IsUnique-take (suc n) ((i, w) ∷ d) h = (take-IsUnique n d i h.0, IsUnique-take n d h.1)

  pub newest-IsUnique :
      (key : V → ℕ) (n : ℕ) (d : Dict K V) → IsUnique d → IsUnique (newest key n d)
  unfolding newest
  newest-IsUnique key n d h = IsUnique-take n _ (sort_by-IsUnique (later key) d h)
