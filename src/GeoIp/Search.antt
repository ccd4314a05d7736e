-- ===== src/GeoIp/Search.antt =====
-- `bisect_right`, and `contains` of client/core/geoip.py on disjoint ascending intervals.
use vpnself.Prelude.{
  ℕ, zero, suc, ◌+◌, ◌-◌, ◌/◌, ◌≤◌, ◌<◌, ◌≡◌, refl, sym, ap, ◌∙◌, inl, inr, Bool, false, List, [],
  ◌∷◌, if◌then◌else◌, ltb, leb, ◌==◌, arith, All, Bool-cases, length, get_or,
}
use vpnself.GeoIp.{Interval, bisect_from, bisect_right, contains_int}
use vpnself.GeoIp.Merge.{hits, IsInterval, IsAscending, firsts, lasts}

-- How many numbers at the front are at most `x`.
abbrev rank : List ℕ → ℕ → ℕ
rank [] x = 0
rank (y ∷ ys) x = if leb y x then suc (rank ys x) else 0

abbrev IsIncreasing : List ℕ → Type 0
IsIncreasing [] = Unit {0}
IsIncreasing (x ∷ xs) = All (λ y. x ≤ y) xs × IsIncreasing xs

rank-le : (xs : List ℕ) (x : ℕ) → rank xs x ≤ length xs
rank-le [] x = omega arith
rank-le (y ∷ ys) x = ground (arith, rank-le ys x)

get_or-ge : (y : ℕ) (ys : List ℕ) (i : ℕ) → All (λ z. y ≤ z) ys → i < length ys → y ≤ get_or ys i 0
get_or-ge y [] i h k = absurd (omega arith)
get_or-ge y (z ∷ zs) zero h k = h.0
get_or-ge y (z ∷ zs) (suc i) h k = get_or-ge y zs i h.1 (omega arith)

-- In an increasing list a number is above `x` exactly from the rank of `x` on.
rank-get_or :
    (xs : List ℕ) (x i : ℕ)
    → IsIncreasing xs
    → i < length xs
    → ltb x (get_or xs i 0) ≡ leb (rank xs x) i
rank-get_or [] x i h k = absurd (omega arith)
rank-get_or (y ∷ ys) x zero h k = ground arith
rank-get_or (y ∷ ys) x (suc i) h k = ground (arith, rank-get_or ys x i h.1, get_or-ge y ys i h.0)

bisect_from-rank :
    (fuel : ℕ) (xs : List ℕ) (x lo hi : ℕ)
    → IsIncreasing xs
    → hi ≤ length xs
    → hi ≤ lo + fuel
    → lo ≤ rank xs x
    → rank xs x ≤ hi
    → bisect_from fuel xs x lo hi ≡ rank xs x
unfolding bisect_from
bisect_from-rank zero xs x lo hi s b f l h = omega arith
bisect_from-rank (suc fuel) xs x lo hi s b f l h = ground (
  arith,
  rank-get_or xs x ((lo + hi) / 2) s,
  bisect_from-rank fuel xs x lo ((lo + hi) / 2) s,
  bisect_from-rank fuel xs x ((lo + hi) / 2 + 1) hi s,
)

-- The binary search finds the rank.
bisect_right-rank : (xs : List ℕ) (x : ℕ) → IsIncreasing xs → bisect_right xs x ≡ rank xs x
unfolding bisect_right
bisect_right-rank xs x s =
    bisect_from-rank (length xs) xs x 0 (length xs) s (omega arith) (omega arith) (omega arith)
      (rank-le xs x)

firsts-above :
    (p : Interval) (ps : List Interval)
    → IsInterval p
    → All (λ q. p.1 + 1 < q.0) ps
    → All (λ y. p.0 ≤ y) (firsts ps)
firsts-above p [] v h = tt
firsts-above p (q ∷ ps) v h = (omega arith, firsts-above p ps v h.1)

firsts-IsIncreasing : (ps : List Interval) → IsAscending ps → IsIncreasing (firsts ps)
firsts-IsIncreasing [] a = tt
firsts-IsIncreasing (p ∷ ps) a = (firsts-above p ps a.0 a.1, firsts-IsIncreasing ps a.2)

rank-zero : (ip s : ℕ) (ys : List ℕ) → All (λ y. s ≤ y) ys → ip < s → rank ys ip ≡ 0
rank-zero ip s [] h k = refl
rank-zero ip s (y ∷ ys) h k = ground arith

-- Below the first address of every interval there is no hit.
no_hits :
    (ip : ℕ) (ps : List Interval) → IsAscending ps → rank (firsts ps) ip ≡ 0 → hits ip ps ≡ false
no_hits ip [] a h = refl
no_hits ip (p ∷ ps) a h =
    ground (arith, rank-zero ip p.0 (firsts ps) (firsts-above p ps a.0 a.1), no_hits ip ps a.2)

past_first :
    (ip k : ℕ) (p : Interval) (ps : List Interval)
    → All (λ q. p.1 + 1 < q.0) ps
    → rank (firsts ps) ip ≡ suc k
    → p.1 < ip
past_first ip k p [] h e = absurd (omega arith)
past_first ip k p (q ∷ ps) h e = ground arith

-- The answer of `contains` at the rank `r`.
abbrev look : ℕ → List ℕ → ℕ → Bool
look ip ends r = if r == 0 then false else leb ip (get_or ends (r - 1) 0)

look_step :
    (ip k : ℕ) (e : ℕ) (ends : List ℕ) → look ip (e ∷ ends) (suc (suc k)) ≡ look ip ends (suc k)
look_step ip k e ends =
    let one : suc k - 1 ≡ k = omega arith in
    let two : suc (suc k) - 1 ≡ suc k = omega arith in rw (one, two) (ground arith)

look_first : (ip e : ℕ) (ends : List ℕ) → look ip (e ∷ ends) 1 ≡ leb ip e
look_first ip e ends = refl

found_at :
    (ip r : ℕ) (p : Interval) (ps : List Interval)
    → IsAscending (p ∷ ps)
    → rank (firsts ps) ip ≡ r
    → p.0 ≤ ip
    → look ip (lasts ps) r ≡ hits ip ps
    → look ip (p.1 ∷ lasts ps) (suc r) ≡ hits ip (p ∷ ps)
found_at ip zero p ps a e b ih = look_first ip p.1 (lasts ps) ∙ ground (arith, no_hits ip ps a.2 e)
found_at ip (suc k) p ps a e b ih =
    look_step ip k p.1 (lasts ps) ∙ ih ∙ ground (arith, past_first ip k p ps a.1 e)

found_at_rank :
    (ip : ℕ) (ps : List Interval)
    → IsAscending ps
    → look ip (lasts ps) (rank (firsts ps) ip) ≡ hits ip ps
found_at_rank ip [] a = refl
found_at_rank ip (p ∷ ps) a = elim (Bool-cases (leb p.0 ip)) [
  | inl b ↦
      let one_more : rank (firsts (p ∷ ps)) ip ≡ suc (rank (firsts ps) ip) = rw b refl in
      ap (look ip (lasts (p ∷ ps))) one_more
      ∙ found_at ip (rank (firsts ps) ip) p ps a refl (ground arith) (found_at_rank ip ps a.2)
  | inr b ↦
      let none_below : rank (firsts (p ∷ ps)) ip ≡ 0 = rw b refl in
      ap (look ip (lasts (p ∷ ps))) none_below ∙ sym (no_hits ip (p ∷ ps) a none_below)
]

-- `contains` decides whether some interval holds the address.
pub contains_int-hits :
    (ip : ℕ) (ps : List Interval)
    → IsAscending ps
    → contains_int (record { starts = firsts ps; ends = lasts ps }) ip ≡ hits ip ps
unfolding contains_int
contains_int-hits ip ps a =
    rw (bisect_right-rank (firsts ps) ip (firsts-IsIncreasing ps a)) (found_at_rank ip ps a)
