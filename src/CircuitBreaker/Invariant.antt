-- ===== src/CircuitBreaker/Invariant.antt =====
-- What holds of a circuit breaker, and of its state file, between the calls of its methods.
use vpnself.Prelude.{
  ℕ, ◌+◌, ◌-◌, ◌≤◌, ◌<◌, ◌≡◌, refl, inl, inr, Bool, true, false, Option, none, some, List, [], ◌∷◌,
  ltb, leb, arith, All, length, filter, Text, text_eq, text_beq_iff, Bool-cases, length-drop,
  length-filter,
}
use vpnself.Prelude.Dict.{
  Dict, get, put, remove, IsUnique, put-IsUnique, remove-IsUnique, keep-IsUnique, length-remove-le,
  All-put, All-remove,
}
use vpnself.Prelude.Dict.Newest.{length-newest, newest-IsUnique, All-newest}
use vpnself.CircuitBreaker.{
  CircuitBreaker, Saved, fail_threshold, cooldown, max_entries, recent, not_empty, saved_failures,
  save, maybe_save, schedule_save, prune, latest, recent_times, count_failure, record_failure,
  record_success, record_tls_reject, is_blocked, loaded_failures, create,
}

-- Fewer failures than the threshold.
abbrev pub IsFew : List ℕ → Type 0
IsFew times = length times < fail_threshold

abbrev pub AllFew : Dict Text (List ℕ) → Type 0
AllFew = All (λ kv. IsFew kv.1)

-- Each address has one entry at most, less than the threshold of failures, and the table is capped.
abbrev pub IsTables : Dict Text ℕ → Dict Text (List ℕ) → Type 0
IsTables blocked failures =
    IsUnique blocked × IsUnique failures × AllFew failures × (length failures ≤ max_entries)

abbrev pub IsSaved : Option Saved → Type 0
IsSaved none = Unit {0}
IsSaved (some s) = IsTables s.blocked s.failures

abbrev pub IsValid : CircuitBreaker → Type 0
IsValid c = IsTables c.blocked c.failures × IsSaved c.disk

get-saved_failures :
    (j : Text) (d : Dict Text (List ℕ)) → get j d ≡ none → get j (saved_failures d) ≡ none
get-saved_failures j [] h = refl
get-saved_failures j ((i, times) ∷ d) h = ground (arith, get-saved_failures j d)

pub saved_failures-IsTables :
    (blocked : Dict Text ℕ) (d : Dict Text (List ℕ))
    → IsTables blocked d
    → IsUnique (saved_failures d)
      × AllFew (saved_failures d)
      × (length (saved_failures d) ≤ length d)
saved_failures-IsTables blocked [] h = (tt, tt, omega arith)
saved_failures-IsTables blocked ((i, times) ∷ d) (u, v, f, c) =
    let (u', f', c') = saved_failures-IsTables blocked d (u, v.1, f.1, omega arith) in
    elim (Bool-cases (not_empty times)) [
      | inl q ↦ rw q (
        (get-saved_failures i d v.0, u'),
        (omega (arith, f.0, length-drop (length times - 20) times), f'),
        omega arith,
      )
      | inr q ↦ rw q (u', f', omega arith)
    ]

save-IsValid : (w : Bool) (now : ℕ) (c : CircuitBreaker) → IsValid c → IsValid (save w now c)
unfolding save
save-IsValid false now c v = v
save-IsValid true now c v =
    let (u, f, n) = saved_failures-IsTables c.blocked c.failures v.0 in
    (v.0, (keep-IsUnique (λ until. leb now until) c.blocked v.0.0, u, f, omega (arith, v.0.3)))

maybe_save-IsValid :
    (w : Bool) (now t : ℕ) (c : CircuitBreaker) → IsValid c → IsValid (maybe_save w now t c)
unfolding maybe_save
maybe_save-IsValid w now t c v = ground (arith, save-IsValid w t c v)

schedule_save-IsValid :
    (w : Bool) (now t : ℕ) (c : CircuitBreaker) → IsValid c → IsValid (schedule_save w now t c)
unfolding schedule_save
schedule_save-IsValid w now t c v =
    ground (arith, maybe_save-IsValid w now t (record c { save_dirty = true }) v)

-- Between the two halves of `record_failure` the table may hold one entry too many.
abbrev IsCounted : CircuitBreaker → Type 0
IsCounted c = IsUnique c.blocked × IsUnique c.failures × AllFew c.failures × IsSaved c.disk

count_failure-IsCounted :
    (ip : Text) (now : ℕ) (c : CircuitBreaker) → IsValid c → IsCounted (count_failure ip now c)
unfolding count_failure
count_failure-IsCounted ip now c v =
    let times = recent_times ip now c in
    elim (Bool-cases (leb fail_threshold (length times))) [
      | inl many ↦ rw many (
        put-IsUnique ip (now + cooldown) c.blocked v.0.0,
        remove-IsUnique ip (put ip times c.failures) (put-IsUnique ip times c.failures v.0.1),
        dropped c.failures v.0.2,
        v.1,
      )
      | inr few ↦ rw few (
        v.0.0,
        put-IsUnique ip times c.failures v.0.1,
        All-put IsFew ip times c.failures (ground arith) v.0.2,
        v.1,
      )
    ]
  where
    dropped :
        (d : Dict Text (List ℕ)) → AllFew d → AllFew (remove ip (put ip (recent_times ip now c) d))
    dropped [] h = ground (arith, (text_beq_iff ip ip).1 refl)
    dropped ((i, w) ∷ d) h = elim (Bool-cases (text_eq.beq i ip)) [
      | inl same ↦ rw (same, same) (All-remove (λ kv. IsFew kv.1) ip d h.1)
      | inr other ↦ rw (other, other) (h.0, dropped d h.1)
    ]

prune-IsValid : (now : ℕ) (c : CircuitBreaker) → IsCounted c → IsValid (prune now c)
unfolding prune
prune-IsValid now c (u, f, few, s) = elim (Bool-cases (ltb max_entries (length c.failures))) [
  | inl over ↦ rw over (
    (
      keep-IsUnique (λ until. leb now until) c.blocked u,
      newest-IsUnique latest max_entries c.failures f,
      All-newest (λ kv. IsFew kv.1) latest max_entries c.failures few,
      length-newest latest max_entries c.failures,
    ),
    s,
  )
  | inr fits ↦
      rw fits ((keep-IsUnique (λ until. leb now until) c.blocked u, f, few, ground arith), s)
]

-- `record_failure` keeps the invariant.
pub record_failure-IsValid :
    (w : Bool) (ip : Text) (now t_prune t_schedule t_save : ℕ) (c : CircuitBreaker)
    → IsValid c
    → IsValid (record_failure w ip now t_prune t_schedule t_save c)
unfolding record_failure
record_failure-IsValid w ip now t_prune t_schedule t_save c v =
    schedule_save-IsValid w t_schedule t_save _
      (prune-IsValid t_prune (count_failure ip now c) (count_failure-IsCounted ip now c v))

record_success-IsValid :
    (ip : Text) (c : CircuitBreaker) → IsValid c → IsValid (record_success ip c)
unfolding record_success
record_success-IsValid ip c ((u, f, few, n), s) = (
  (
    remove-IsUnique ip c.blocked u,
    remove-IsUnique ip c.failures f,
    All-remove (λ kv. IsFew kv.1) ip c.failures few,
    omega (arith, length-remove-le ip c.failures),
  ),
  s,
)

record_tls_reject-IsValid :
    (ip : Text) (c : CircuitBreaker) → IsValid c → IsValid (record_tls_reject ip c)
unfolding record_tls_reject
record_tls_reject-IsValid ip c v = v

is_blocked-IsValid :
    (w : Bool) (ip : Text) (now t : ℕ) (c c' : CircuitBreaker) (b : Bool)
    → IsValid c
    → is_blocked w ip now t c ≡ some (c', b)
    → IsValid c'
unfolding is_blocked
is_blocked-IsValid w ip now t c c' b v e =
    ground
      (arith, maybe_save-IsValid w now t c v, remove-IsUnique ip (maybe_save w now t c).blocked)

-- One call of a method, with the readings of the clock and the state of the disk that it meets.
pub data Call : CircuitBreaker → CircuitBreaker → Type 0 where
  failure :
      (w : Bool) (ip : Text) (now t_prune t_schedule t_save : ℕ) (c : CircuitBreaker)
      → Call c (record_failure w ip now t_prune t_schedule t_save c)
  success : (ip : Text) (c : CircuitBreaker) → Call c (record_success ip c)
  tls_reject : (ip : Text) (c : CircuitBreaker) → Call c (record_tls_reject ip c)
  query :
      (w : Bool) (ip : Text) (now t : ℕ) (c c' : CircuitBreaker) (b : Bool)
      → is_blocked w ip now t c ≡ some (c', b)
      → Call c c'
  restart : (now : ℕ) (c : CircuitBreaker) → Call c (create now c.disk)

pub data Reaches (c : CircuitBreaker) : CircuitBreaker → Type 0 where
  here : Reaches c c
  then_call : {c' c'' : CircuitBreaker} → Reaches c c' → Call c' c'' → Reaches c c''

filter-IsFew : (now : ℕ) (times : List ℕ) → IsFew times → IsFew (filter (recent now) times)
filter-IsFew now times h = omega (arith, length-filter (recent now) times)

get-loaded_failures :
    (now : ℕ) (j : Text) (d : Dict Text (List ℕ))
    → get j d ≡ none
    → get j (loaded_failures now d) ≡ none
get-loaded_failures now j [] h = refl
get-loaded_failures now j ((i, times) ∷ d) h = ground (arith, get-loaded_failures now j d)

loaded_failures-IsTables :
    (now : ℕ) (d : Dict Text (List ℕ))
    → IsUnique d
    → AllFew d
    → IsUnique (loaded_failures now d)
      × AllFew (loaded_failures now d)
      × (length (loaded_failures now d) ≤ length d)
loaded_failures-IsTables now [] u f = (tt, tt, omega arith)
loaded_failures-IsTables now ((i, times) ∷ d) u f =
    let (u', f', c') = loaded_failures-IsTables now d u.1 f.1 in
    elim (Bool-cases (not_empty (filter (recent now) times))) [
      | inl q ↦
          rw q
            ((get-loaded_failures now i d u.0, u'), (filter-IsFew now times f.0, f'), omega arith)
      | inr q ↦ rw q (u', f', omega arith)
    ]

create-IsValid : (now : ℕ) (file : Option Saved) → IsSaved file → IsValid (create now file)
unfolding create
create-IsValid now none h = ((tt, tt, tt, omega arith), tt)
create-IsValid now (some s) (u, v, f, n) =
    let (v', f', n') = loaded_failures-IsTables now s.failures v f in
    ((keep-IsUnique (λ until. ltb now until) s.blocked u, v', f', omega arith), (u, v, f, n))

-- Through any sequence of calls and restarts, from a state that meets the invariant, each address has
-- one entry at most in each table, every listed address has fewer failures than the threshold, at
-- most MAX_ENTRIES addresses are tracked, and the same holds of the state file.
pub Reaches-IsValid : {c c' : CircuitBreaker} → IsValid c → Reaches c c' → IsValid c'
Reaches-IsValid v here = v
Reaches-IsValid v (then_call r (failure w ip now t_prune t_schedule t_save c)) =
    record_failure-IsValid w ip now t_prune t_schedule t_save c (Reaches-IsValid v r)
Reaches-IsValid v (then_call r (success ip c)) = record_success-IsValid ip c (Reaches-IsValid v r)
Reaches-IsValid v (then_call r (tls_reject ip c)) =
    record_tls_reject-IsValid ip c (Reaches-IsValid v r)
Reaches-IsValid v (then_call r (query w ip now t c c' b e)) =
    is_blocked-IsValid w ip now t c c' b (Reaches-IsValid v r) e
Reaches-IsValid v (then_call r (restart now c)) = create-IsValid now c.disk (Reaches-IsValid v r).1
