-- ===== src/HttpProxy/Relaying.antt =====
-- One direction of `_relay` in client/core/http_proxy.py.
use vpnself.Prelude.{
  ℕ, ◌+◌, ◌≤◌, ◌≡◌, refl, ap, Bool, true, List, [], ◌∷◌, ◌++◌, if◌then◌else◌, length, arith,
  if_both,
}
use vpnself.HttpProxy.{Read, bytes, error, relay}

-- The data that the reads bring, up to the end or to an error.
abbrev pub chunks : List Read → List (List ℕ)
chunks [] = []
chunks (error ∷ rs) = []
chunks (bytes [] ∷ rs) = []
chunks (bytes (b ∷ bs) ∷ rs) = (b ∷ bs) ∷ chunks rs

abbrev pub size : List (List ℕ) → ℕ
size [] = 0
size (d ∷ ds) = length d + size ds

-- The reads are relayed up to the first drain that fails, without a gap. The total counts what has
-- been drained: all of it where every drain succeeds, and never more than what was written.
abbrev pub IsRelayed : (ℕ → Bool) → ℕ → List Read → List (List ℕ) × ℕ → Type 0
IsRelayed ok i rs result =
    ((rest : List (List ℕ)) × (chunks rs ≡ result.0 ++ rest))
    × (result.1 ≤ size result.0)
    × (((j : ℕ) → ok j ≡ true) → (result.0 ≡ chunks rs) × (result.1 ≡ size (chunks rs)))

relay-cons :
    (ok : ℕ → Bool) (i b : ℕ) (bs : List ℕ) (rs : List Read) (result : List (List ℕ) × ℕ)
    → IsRelayed ok (i + 1) rs result
    → IsRelayed ok i
        (bytes (b ∷ bs) ∷ rs)
        (if ok i then ((b ∷ bs) ∷ result.0, length (b ∷ bs) + result.1) else ((b ∷ bs) ∷ [], 0))
relay-cons ok i b bs rs (written, total) ((rest, front), counted, whole) =
    if_both (IsRelayed ok i (bytes (b ∷ bs) ∷ rs)) (ok i)
      ((b ∷ bs) ∷ written, length (b ∷ bs) + total) ((b ∷ bs) ∷ [], 0)
      (λ _. (
        (rest, ap (λ ds. (b ∷ bs) ∷ ds) front),
        omega (arith, counted),
        λ all. (ap (λ ds. (b ∷ bs) ∷ ds) (whole all).0, omega (arith, (whole all).1)),
      ))
      (λ q. ((chunks rs, refl), omega arith, λ all. let yes : ok i ≡ true = all i in absurd cc))

-- What `IsRelayed` says, for every sequence of reads and of drains.
pub relay-IsRelayed : (ok : ℕ → Bool) (i : ℕ) (rs : List Read) → IsRelayed ok i rs (relay ok i rs)
unfolding relay
relay-IsRelayed ok i [] = (([], refl), omega arith, λ _. (refl, refl))
relay-IsRelayed ok i (error ∷ rs) = (([], refl), omega arith, λ _. (refl, refl))
relay-IsRelayed ok i (bytes [] ∷ rs) = (([], refl), omega arith, λ _. (refl, refl))
relay-IsRelayed ok i (bytes (b ∷ bs) ∷ rs) =
    relay-cons ok i b bs rs (relay ok (i + 1) rs) (relay-IsRelayed ok (i + 1) rs)
