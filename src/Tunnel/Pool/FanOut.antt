-- ===== src/Tunnel/Pool/FanOut.antt =====
-- The round robin of `TunnelPool.create_stream` in client/core/tunnel.py.
use vpnself.Prelude.{
  ℕ, zero, suc, ◌+◌, ◌-◌, ◌%◌, ◌≤◌, ◌<◌, ◌≡◌, ◌≢◌, ◌⊎◌, inl, inr, refl, sym, ◌∙◌, ap, Bool, true,
  false, List, [], ◌∷◌, if◌then◌else◌, ltb, length, any, All, Bool-cases, arith, ltb→lt, ◌==◌,
  ==_iff, if_both,
}
use mathlib.Core.Path.{subst}
use native.Mathlib.Nat.{mod-lt, mod-eq_of_lt, add-mod_right}
use vpnself.Tunnel.Pool.{
  TunnelPool, Created, stream, rejected, refused, or_next, fan_out, create_stream,
}

-- An index is in the list of the tunnels asked.
abbrev pub IsAsked : ℕ → List ℕ → Type 0
IsAsked i asked = any (λ j. j == i) asked ≡ true

-- The tunnels are asked in turn: each one is there, is up and is not asked again. It gives the
-- result, and is the last one, or it could not carry the stream, and the next one is asked. Where
-- none is left to ask, the stream is refused.
abbrev pub InTurn : (ℕ → Bool) → (ℕ → Created) → ℕ → Created → List ℕ → Type 0
InTurn up answer n result [] = result ≡ refused
InTurn up answer n result (i ∷ is) =
    (i < n)
    × (up i ≡ true)
    × All (λ j. j ≢ i) is
    × (((answer i ≡ result) × (result ≢ refused) × (is ≡ []))
        ⊎ ((answer i ≡ refused) × InTurn up answer n result is))

-- One offset, whatever the ones behind it lead to.
abbrev one_offset : ℕ → Bool → Created → List ℕ × Created → List ℕ × Created
one_offset idx up answer rest = if up then or_next idx answer rest else rest

one_offset-refused :
    (idx : ℕ) (up : Bool) (answer : Created) (rest : List ℕ × Created)
    → (one_offset idx up answer rest).1 ≡ refused
    → (rest.1 ≡ refused)
      × (up ≡ true → (answer ≡ refused) × IsAsked idx (one_offset idx up answer rest).0)
      × ((k : ℕ) → IsAsked k rest.0 → IsAsked k (one_offset idx up answer rest).0)
one_offset-refused idx true (stream sid) rest h = absurd cc
one_offset-refused idx true rejected rest h = absurd cc
one_offset-refused idx true refused rest h =
    (h, (λ _. (refl, ground (arith, ==_iff idx idx))), λ k m. ground (arith, m))
one_offset-refused idx false answer rest h = (h, (λ q. absurd cc), λ k m. m)

one_offset-InTurn :
    (up : ℕ → Bool) (answer : ℕ → Created) (n idx : ℕ) (b : Bool) (a : Created)
    (rest : List ℕ × Created)
    → idx < n
    → up idx ≡ b
    → answer idx ≡ a
    → All (λ j. j ≢ idx) rest.0
    → InTurn up answer n rest.1 rest.0
    → InTurn up answer n (one_offset idx b a rest).1 (one_offset idx b a rest).0
one_offset-InTurn up answer n idx true (stream sid) rest small u a new h =
    (small, u, tt, inl (a, (λ q. cc), refl))
one_offset-InTurn up answer n idx true rejected rest small u a new h =
    (small, u, tt, inl (a, (λ q. cc), refl))
one_offset-InTurn up answer n idx true refused rest small u a new h = (small, u, new, inr (a, h))
one_offset-InTurn up answer n idx false a rest small u q new h = h

one_offset-All :
    (P : ℕ → Type 0) (idx : ℕ) (up : Bool) (answer : Created) (rest : List ℕ × Created)
    → P idx
    → All P rest.0
    → All P (one_offset idx up answer rest).0
one_offset-All P idx true (stream sid) rest p h = (p, tt)
one_offset-All P idx true rejected rest p h = (p, tt)
one_offset-All P idx true refused rest p h = (p, h)
one_offset-All P idx false answer rest p h = h

All-weaken : (P Q : ℕ → Type 0) (xs : List ℕ) → ((i : ℕ) → P i → Q i) → All P xs → All Q xs
All-weaken P Q [] f h = tt
All-weaken P Q (x ∷ xs) f h = (f x h.0, All-weaken P Q xs f h.1)

-- Below twice the divisor, a remainder is the number or less by the divisor.
mod-cases : (x n : ℕ) → x < n + n → (x % n ≡ x) ⊎ (x % n + n ≡ x)
mod-cases x n h = elim (Bool-cases (ltb x n)) [
  | inl q ↦ inl (mod-eq_of_lt (ltb→lt x n q))
  | inr q ↦
      let wrapped : x % n ≡ x - n =
        ap (λ y. y % n) (ground (arith, q))
        ∙ add-mod_right (x - n) n
        ∙ mod-eq_of_lt (omega arith) in
      inr (ground (arith, q, wrapped))
]

module _ (up : ℕ → Bool) (answer : ℕ → Created) (n start : ℕ) where
  -- The index at an offset that is still to come.
  abbrev IsLater : ℕ → ℕ → Type 0
  IsLater low i = (j : ℕ) × (low ≤ j) × (j < n) × (i ≡ (start + j) % n)

  fan_out-IsLater :
      (left : ℕ) → left ≤ n → All (IsLater (n - left)) (fan_out up answer n start left).0
  unfolding fan_out
  fan_out-IsLater zero le = tt
  fan_out-IsLater (suc left) le =
      let idx = (start + (n - suc left)) % n in
      one_offset-All (IsLater (n - suc left)) idx (up idx) (answer idx)
        (fan_out up answer n start left) (n - suc left, omega arith, omega arith, refl)
        (All-weaken (IsLater (n - left)) (IsLater (n - suc left)) (fan_out up answer n start left).0
          (λ i later. (later.0, omega (arith, later.1), later.2, later.3))
          (fan_out-IsLater left (omega arith)))

  later_differs : (low j : ℕ) (i : ℕ) → start < n → j < low → IsLater low i → i ≢ (start + j) % n
  later_differs low j i inside before (k, le, small, e) same =
      let here = mod-cases (start + j) n (omega arith) in
      let there = mod-cases (start + k) n (omega arith) in
      let both : (start + k) % n ≡ (start + j) % n = sym e ∙ same in
      ground (arith, here, there, both)

  fan_out-InTurn :
      (left : ℕ)
      → left ≤ n
      → start < n
      → InTurn up answer n (fan_out up answer n start left).1 (fan_out up answer n start left).0
  unfolding fan_out
  fan_out-InTurn zero le inside = refl
  fan_out-InTurn (suc left) le inside =
      let idx = (start + (n - suc left)) % n in
      one_offset-InTurn up answer n idx (up idx) (answer idx) (fan_out up answer n start left)
        (mod-lt (start + (n - suc left)) (omega arith)) refl refl
        (All-weaken (IsLater (n - left)) (λ i. i ≢ idx) (fan_out up answer n start left).0
          (λ i later. later_differs (n - left) (n - suc left) i inside (omega arith) later)
          (fan_out-IsLater left (omega arith)))
        (fan_out-InTurn left (omega arith) inside)

  fan_out-refused :
      (left : ℕ)
      → left ≤ n
      → (fan_out up answer n start left).1 ≡ refused
      → (j : ℕ) → n - left ≤ j
      → j < n
      → up ((start + j) % n) ≡ true
      → (answer ((start + j) % n) ≡ refused)
        × IsAsked ((start + j) % n) (fan_out up answer n start left).0
  unfolding fan_out
  fan_out-refused zero le h j low high u = absurd (omega arith)
  fan_out-refused (suc left) le h j low high u =
      let idx = (start + (n - suc left)) % n in
      let rest = fan_out up answer n start left in
      let both = one_offset-refused idx (up idx) (answer idx) rest h in
      elim (Bool-cases (ltb (n - suc left) j)) [
        | inl q ↦
            let found =
              fan_out-refused left (omega arith) both.0 j (omega (arith, ltb→lt (n - suc left) j q))
                high u in
            (found.0, both.2 ((start + j) % n) found.1)
        | inr q ↦
            let same : j ≡ n - suc left = ground (arith, q) in
            subst
              (λ i.
                up ((start + i) % n) ≡ true
                → (answer ((start + i) % n) ≡ refused)
                  × IsAsked ((start + i) % n) (one_offset idx (up idx) (answer idx) rest).0)
              (sym same) both.1 u
      ]

-- Every index is at some offset from the start.
offset_of : (start n i : ℕ) → start < n → i < n → (j : ℕ) × (j < n) × ((start + j) % n ≡ i)
offset_of start n i s h = elim (Bool-cases (ltb i start)) [
  | inl q ↦ (
    i + n - start,
    omega (arith, ltb→lt i start q),
    ap (λ x. x % n) (omega (arith, ltb→lt i start q)) ∙ add-mod_right i n ∙ mod-eq_of_lt h,
  )
  | inr q ↦ (i - start, omega arith, ap (λ x. x % n) (ground (arith, q)) ∙ mod-eq_of_lt h)
]

-- `create_stream` of the pool asks connected tunnels in turn, none of them twice, up to the first
-- that does not refuse, whose answer is the result. It returns None only where every connected tunnel
-- has been asked and could not carry the stream.
pub create_stream-asks_all :
    (up : ℕ → Bool) (answer : ℕ → Created) (p : TunnelPool)
    → let (asked, result) = (create_stream up answer p).0 in
      InTurn up answer (length p.tunnels) result asked
      × (result ≡ refused
          → (i : ℕ) → i < length p.tunnels
          → up i ≡ true
          → (answer i ≡ refused) × IsAsked i asked)
unfolding create_stream
create_stream-asks_all up answer p =
    let n = length p.tunnels in
    let start = p.rr_index % n in
    if_both
      (λ (x : (List ℕ × Created) × TunnelPool).
        InTurn up answer n x.0.1 x.0.0
        × (x.0.1 ≡ refused
            → (i : ℕ) → i < n
            → up i ≡ true
            → (answer i ≡ refused) × IsAsked i x.0.0))
      (n == 0) _ _ (λ none_left. (refl, (λ h i small u. absurd (ground (arith, none_left)))))
      (λ some_left.
        let pos : 0 < n = ground (arith, some_left) in
        let inside : start < n = mod-lt p.rr_index pos in
        (
          fan_out-InTurn up answer n start n (omega arith) inside,
          λ h i small u.
              let (j, low, same) = offset_of start n i inside small in
              subst (λ x. (answer x ≡ refused) × IsAsked x (fan_out up answer n start n).0) same
                (fan_out-refused up answer n start n (omega arith) h j (omega arith) low
                  (subst (λ x. up x ≡ true) (sym same) u)),
        ))
