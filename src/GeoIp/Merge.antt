-- ===== src/GeoIp/Merge.antt =====
-- `rebuild` of client/core/geoip.py keeps the same addresses in disjoint intervals.
use vpnself.Prelude.{
  ℕ, ◌+◌, ◌≤◌, ◌<◌, ◌≡◌, refl, ◌∙◌, inl, inr, Bool, false, ◌&&◌, ◌||◌, List, [], ◌∷◌, ◌++◌, map,
  if◌then◌else◌, ltb, leb, arith, All, any, Bool-cases, All-append,
}
use vpnself.Prelude.Sort.{sort_by, IsSorted, IsOrder, sort_by-IsSorted, any-sort_by, All-sort_by}
use vpnself.GeoIp.{Interval, tuple_lt, merge_step, rebuild_intervals}
use mathlib.Core.List.{reverse, foldl, reverse-append, map-append}

-- `ip` lies in one interval, in some interval.
abbrev pub hit : ℕ → Interval → Bool
hit ip p = leb p.0 ip && leb ip p.1

abbrev pub hits : ℕ → List Interval → Bool
hits ip = any (hit ip)

abbrev pub IsInterval : Interval → Type 0
IsInterval p = p.0 ≤ p.1

-- Disjoint intervals that do not touch, in ascending order.
abbrev pub IsAscending : List Interval → Type 0
IsAscending [] = Unit {0}
IsAscending (p ∷ ps) = IsInterval p × All (λ q. p.1 + 1 < q.0) ps × IsAscending ps

abbrev IsDescending : List Interval → Type 0
IsDescending [] = Unit {0}
IsDescending (p ∷ ps) = IsInterval p × All (λ q. q.1 + 1 < p.0) ps × IsDescending ps

-- One round of the merge on a list of pairs, last interval first.
merge_pair : List Interval → Interval → List Interval
merge_pair [] iv = iv ∷ []
merge_pair ((s0, e0) ∷ ps) (s, e) =
    if leb s (e0 + 1)
    then (if ltb e0 e then (s0, e) ∷ ps else (s0, e0) ∷ ps)
    else (s, e) ∷ (s0, e0) ∷ ps

abbrev pub firsts : List Interval → List ℕ
firsts = map (λ p. p.0)

abbrev pub lasts : List Interval → List ℕ
lasts = map (λ p. p.1)

merge_step-pairs :
    (ps : List Interval) (iv : Interval)
    → merge_step (firsts ps, lasts ps) iv ≡ (firsts (merge_pair ps iv), lasts (merge_pair ps iv))
unfolding merge_step merge_pair
merge_step-pairs [] iv = refl
merge_step-pairs ((s0, e0) ∷ ps) (s, e) = ground arith

foldl-pairs :
    (ivs ps : List Interval)
    → foldl merge_step (firsts ps, lasts ps) ivs
      ≡ (firsts (foldl merge_pair ps ivs), lasts (foldl merge_pair ps ivs))
foldl-pairs [] ps = refl
foldl-pairs (iv ∷ ivs) ps = rw (merge_step-pairs ps iv) (foldl-pairs ivs (merge_pair ps iv))

-- The last interval so far begins no later than the interval `iv`.
abbrev BeginsBefore : List Interval → Interval → Type 0
BeginsBefore [] iv = Unit {0}
BeginsBefore (p ∷ ps) iv = p.0 ≤ iv.0

All-below :
    (s s' : ℕ) (ps : List Interval)
    → s ≤ s'
    → All (λ q. q.1 + 1 < s) ps
    → All (λ q. q.1 + 1 < s') ps
All-below s s' [] h k = tt
All-below s s' (p ∷ ps) h k = (omega arith, All-below s s' ps h k.1)

merge_pair-IsDescending :
    (ps : List Interval) (iv : Interval)
    → IsDescending ps
    → IsInterval iv
    → BeginsBefore ps iv
    → IsDescending (merge_pair ps iv)
unfolding merge_pair
merge_pair-IsDescending [] iv d v b = (v, tt, tt)
merge_pair-IsDescending ((s0, e0) ∷ ps) (s, e) d v b = elim (Bool-cases (leb s (e0 + 1))) [
  | inl near ↦ elim (Bool-cases (ltb e0 e)) [
    | inl longer ↦ rw (near, longer) (ground arith, d.1, d.2)
    | inr shorter ↦ rw (near, shorter) d
  ]
  | inr far ↦ rw far (v, (ground arith, All-below s0 s ps b d.1), d)
]

hits-merge_pair :
    (ip : ℕ) (ps : List Interval) (iv : Interval)
    → IsDescending ps
    → IsInterval iv
    → BeginsBefore ps iv
    → hits ip (merge_pair ps iv) ≡ (hits ip ps || hit ip iv)
unfolding merge_pair
hits-merge_pair ip [] iv d v b = ground arith
hits-merge_pair ip ((s0, e0) ∷ ps) (s, e) d v b = ground arith

merge_pair-BeginsBefore :
    (ps : List Interval) (iv next : Interval)
    → BeginsBefore ps next
    → tuple_lt next iv ≡ false
    → BeginsBefore (merge_pair ps iv) next
unfolding merge_pair
merge_pair-BeginsBefore [] iv next b h = ground arith
merge_pair-BeginsBefore ((s0, e0) ∷ ps) (s, e) next b h = ground arith

merge_pair-BeginsBefore-All :
    (ps : List Interval) (iv : Interval) (ivs : List Interval)
    → All (BeginsBefore ps) ivs
    → All (λ next. tuple_lt next iv ≡ false) ivs
    → All (BeginsBefore (merge_pair ps iv)) ivs
merge_pair-BeginsBefore-All ps iv [] b h = tt
merge_pair-BeginsBefore-All ps iv (next ∷ ivs) b h =
    (merge_pair-BeginsBefore ps iv next b.0 h.0, merge_pair-BeginsBefore-All ps iv ivs b.1 h.1)

-- The loop of `rebuild` on sorted intervals.
foldl-merge_pair :
    (ip : ℕ) (ivs ps : List Interval)
    → IsDescending ps
    → All IsInterval ivs
    → All (BeginsBefore ps) ivs
    → IsSorted tuple_lt ivs
    → let merged = foldl merge_pair ps ivs in
      IsDescending merged × (hits ip merged ≡ (hits ip ps || hits ip ivs))
foldl-merge_pair ip [] ps d v b s = (d, ground arith)
foldl-merge_pair ip (iv ∷ ivs) ps d v b s =
    let (d', h) =
      foldl-merge_pair ip ivs (merge_pair ps iv) (merge_pair-IsDescending ps iv d v.0 b.0) v.1
        (merge_pair-BeginsBefore-All ps iv ivs b.1 s.0) s.1 in
    (d', ground (arith, h, hits-merge_pair ip ps iv d v.0 b.0))

hits-append : (ip : ℕ) (ps qs : List Interval) → hits ip (ps ++ qs) ≡ (hits ip ps || hits ip qs)
hits-append ip [] qs = refl
hits-append ip (p ∷ ps) qs = ground (arith, hits-append ip ps qs)

IsAscending-append :
    (ps : List Interval) (p : Interval)
    → IsAscending ps
    → All (λ q. q.1 + 1 < p.0) ps
    → IsInterval p
    → IsAscending (ps ++ (p ∷ []))
IsAscending-append [] p a h v = (v, tt, tt)
IsAscending-append (q ∷ ps) p a h v = (
  a.0,
  All-append (λ r. q.1 + 1 < r.0) ps (p ∷ []) a.1 (h.0, tt),
  IsAscending-append ps p a.2 h.1 v,
)

All-reverse {κ} : {A : Type 0} (P : A → Type κ) (xs : List A) → All P xs → All P (reverse xs)
All-reverse P [] h = tt
All-reverse P (x ∷ xs) h =
    rw (reverse-append (x ∷ []) xs)
      (All-append P (reverse xs) (x ∷ []) (All-reverse P xs h.1) (h.0, tt))

reverse-IsAscending :
    (ip : ℕ) (ps : List Interval)
    → IsDescending ps
    → IsAscending (reverse ps) × (hits ip (reverse ps) ≡ hits ip ps)
reverse-IsAscending ip [] d = (tt, refl)
reverse-IsAscending ip (p ∷ ps) d =
    let (a, h) = reverse-IsAscending ip ps d.2 in
    rw (reverse-append (p ∷ []) ps) (
      IsAscending-append (reverse ps) p a (All-reverse _ ps d.1) d.0,
      ground (arith, h, hits-append ip (reverse ps) (p ∷ [])),
    )

map-reverse : (f : Interval → ℕ) (ps : List Interval) → reverse (map f ps) ≡ map f (reverse ps)
map-reverse f [] = refl
map-reverse f (p ∷ ps) =
    reverse-append (f p ∷ []) (map f ps)
    ∙ rw (map-reverse f ps, reverse-append (p ∷ []) ps, map-append)

begins_any : (ivs : List Interval) → All (BeginsBefore []) ivs
begins_any [] = tt
begins_any (iv ∷ ivs) = (tt, begins_any ivs)

tuple_lt-IsOrder : IsOrder tuple_lt
tuple_lt-IsOrder = record { asym = λ x y h. ground arith; steps = λ x y z h k. ground arith }

-- What `rebuild` leaves in the two lists: disjoint ascending intervals of the same addresses.
pub rebuild_intervals_lem :
    (ip : ℕ) (ivs : List Interval)
    → All IsInterval ivs
    → (ps : List Interval) × (rebuild_intervals ivs
        ≡ record { starts = firsts ps; ends = lasts ps })
      × IsAscending ps
      × (hits ip ps ≡ hits ip ivs)
unfolding rebuild_intervals
rebuild_intervals_lem ip ivs v =
    let sorted = sort_by tuple_lt ivs in
    let merged : List Interval = foldl merge_pair [] sorted in
    let (d, h) =
      foldl-merge_pair ip sorted [] tt (All-sort_by tuple_lt IsInterval ivs v) (begins_any sorted)
        (sort_by-IsSorted tuple_lt tuple_lt-IsOrder ivs) in
    let (a, h') = reverse-IsAscending ip merged d in
    (
      reverse merged,
      rw (foldl-pairs sorted [], map-reverse (λ p. p.0) merged, map-reverse (λ p. p.1) merged) refl,
      a,
      h' ∙ h ∙ any-sort_by tuple_lt (hit ip) ivs,
    )
