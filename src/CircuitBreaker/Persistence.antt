-- ===== src/CircuitBreaker/Persistence.antt =====
-- The state file of client/core/circuit_breaker.py: what a restart brings back.
use vpnself.Prelude.{
  ℕ, ◌-◌, ◌≤◌, ◌<◌, ◌≡◌, refl, ◌∙◌, true, false, none, List, [], ◌∷◌, ◌++◌, ltb, leb, arith, length,
  filter, Text, text_eq, text_beq_iff,
}
use vpnself.Prelude.Dict.{Dict, get, keep, IsUnique, get-keep, get-remove, keep-IsUnique}
use vpnself.CircuitBreaker.{
  CircuitBreaker, recent, not_empty, last_twenty, saved_failures, loaded_failures, save, create,
  times_of, recent_times, record_success,
}
use vpnself.CircuitBreaker.Invariant.{IsValid, IsFew, AllFew, saved_failures-IsTables}
use vpnself.CircuitBreaker.Blocking.{answer}

last_twenty_of_IsFew : (times : List ℕ) → IsFew times → last_twenty times ≡ times
last_twenty_of_IsFew times h = let e : length times - 20 ≡ 0 = omega arith in rw e

times_of-saved_failures :
    (j : Text) (d : Dict Text (List ℕ))
    → IsUnique d
    → AllFew d
    → times_of j (saved_failures d) ≡ times_of j d
times_of-saved_failures j [] u f = refl
times_of-saved_failures j ((i, []) ∷ d) u f =
    ground (arith, times_of-saved_failures j d u.1 f.1, text_beq_iff i j)
times_of-saved_failures j ((i, t ∷ ts) ∷ d) u f =
    ground (arith, times_of-saved_failures j d u.1 f.1, last_twenty_of_IsFew (t ∷ ts) f.0)

absent_loaded :
    (now : ℕ) (j : Text) (d : Dict Text (List ℕ))
    → get j d ≡ none
    → times_of j (loaded_failures now d) ≡ []
absent_loaded now j [] h = refl
absent_loaded now j ((i, ts) ∷ d) h = ground (arith, absent_loaded now j d)

empty_of_not_empty : (ts : List ℕ) → not_empty ts ≡ false → ts ≡ []
empty_of_not_empty [] h = refl
empty_of_not_empty (t ∷ ts) h = cc

times_of-loaded_failures :
    (now : ℕ) (j : Text) (d : Dict Text (List ℕ))
    → IsUnique d
    → times_of j (loaded_failures now d) ≡ filter (recent now) (times_of j d)
times_of-loaded_failures now j [] u = refl
times_of-loaded_failures now j ((i, ts) ∷ d) u = ground (
  arith,
  times_of-loaded_failures now j d u.1,
  absent_loaded now i d u.0,
  text_beq_iff i j,
  empty_of_not_empty (filter (recent now) ts),
)

recent_later :
    (t1 t2 n : ℕ) (ts : List ℕ)
    → t1 ≤ t2
    → filter (recent t2) (filter (recent t1) ts ++ (n ∷ [])) ≡ filter (recent t2) (ts ++ (n ∷ []))
recent_later t1 t2 n [] h = refl
recent_later t1 t2 n (t ∷ ts) h = ground (arith, recent_later t1 t2 n ts h)

-- A breaker that is saved at `t0` and created again from the file at `t1` answers every query at a
-- later time as the old one, and counts the same failures towards the threshold from then on.
pub create-save :
    (j : Text) (t0 t1 t2 : ℕ) (c : CircuitBreaker)
    → IsValid c
    → t0 ≤ t1
    → t1 < t2
    → let c' = create t1 (save true t0 c).disk in
      (answer c' j t2 ≡ answer c j t2) × (recent_times j t2 c' ≡ recent_times j t2 c)
unfolding create save
create-save j t0 t1 t2 c v a b = (blocks, failures)
  where
    blocks : answer (create t1 (save true t0 c).disk) j t2 ≡ answer c j t2
    blocks = ground (
      arith,
      get-keep (λ until. leb t0 until) j c.blocked v.0.0,
      get-keep (λ until. ltb t1 until) j (keep (λ until. leb t0 until) c.blocked)
          (keep-IsUnique (λ until. leb t0 until) c.blocked v.0.0),
    )

    failures : recent_times j t2 (create t1 (save true t0 c).disk) ≡ recent_times j t2 c
    failures =
        rw
          (
            times_of-loaded_failures t1 j (saved_failures c.failures)
                (saved_failures-IsTables c.blocked c.failures v.0).0,
            times_of-saved_failures j c.failures v.0.1 v.0.2,
          )
          (recent_later t1 t2 t2 (times_of j c.failures) (omega arith))

-- `record_success` is not written to the file: after a restart the address is blocked as before.
pub create-record_success :
    (ip : Text) (t0 t1 t2 : ℕ) (c : CircuitBreaker)
    → IsValid c
    → t0 ≤ t1
    → t1 < t2
    → answer c ip t2 ≡ true
    → (answer (record_success ip (save true t0 c)) ip t2 ≡ false)
      × (answer (create t1 (record_success ip (save true t0 c)).disk) ip t2 ≡ true)
unfolding record_success
create-record_success ip t0 t1 t2 c v a b h = (
  ground (arith, get-remove ip ip (save true t0 c).blocked, (text_beq_iff ip ip).1 refl),
  (create-save ip t0 t1 t2 c v a b).0 ∙ h,
)
