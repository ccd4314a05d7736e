-- ===== src/CircuitBreaker/Blocking.antt =====
-- Which addresses `is_blocked` of client/core/circuit_breaker.py reports, and for how long.
use vpnself.Prelude.{
  ℕ, ◌+◌, ◌≤◌, ◌<◌, ◌≡◌, refl, ap, ◌∙◌, inl, inr, Bool, true, false, ◌&&◌, none, some, List, [],
  ◌∷◌, ◌++◌, if◌then◌else◌, ltb, leb, arith, length, filter, Text, text_eq, text_beq, text_beq_iff,
  Bool-cases,
}
use vpnself.Prelude.Dict.{
  Dict, get, put, remove, IsUnique, get-put, get-remove, get-keep, put-IsUnique, length-put,
}
use vpnself.CircuitBreaker.{
  CircuitBreaker, fail_threshold, cooldown, max_entries, window, recent, save, maybe_save,
  schedule_save, prune, times_of, recent_times, count_failure, record_failure, record_success,
  blocked_until, is_blocked,
}
use vpnself.CircuitBreaker.Invariant.{IsValid, record_failure-IsValid}

-- The answer that the table of blocks gives for `ip` at the time `t`.
abbrev answer_in : Dict Text ℕ → Text → ℕ → Bool
answer_in blocked ip t = elim (get ip blocked) [ none ↦ false | some until ↦ leb t until ]

abbrev pub answer : CircuitBreaker → Text → ℕ → Bool
answer c = answer_in c.blocked

-- Saving changes neither table.
abbrev SameTables : CircuitBreaker → CircuitBreaker → Type 0
SameTables c c' = (c'.blocked ≡ c.blocked) × (c'.failures ≡ c.failures)

maybe_save-SameTables :
    (w : Bool) (now t : ℕ) (c : CircuitBreaker) → SameTables c (maybe_save w now t c)
unfolding maybe_save save
maybe_save-SameTables w now t c = ground arith

schedule_save-SameTables :
    (w : Bool) (now t : ℕ) (c : CircuitBreaker) → SameTables c (schedule_save w now t c)
unfolding schedule_save
schedule_save-SameTables w now t c =
    ground (arith, maybe_save-SameTables w now t (record c { save_dirty = true }))

-- At a positive time `is_blocked` returns, with the answer of the table.
pub is_blocked_lem :
    (w : Bool) (ip : Text) (t t_save : ℕ) (c : CircuitBreaker)
    → 0 < t
    → (c' : CircuitBreaker) × (is_blocked w ip t t_save c ≡ some (c', answer c ip t))
unfolding is_blocked
is_blocked_lem w ip t t_save c h =
    let c' = maybe_save w t t_save c in
    let (same, _) = maybe_save-SameTables w t t_save c in
    elim (Bool-cases (ltb (blocked_until ip c') t)) [
      | inl free ↦ (record c' { blocked = remove ip c'.blocked }, ground arith)
      | inr busy ↦ (c', ground arith)
    ]

abbrev counted : Text → Text → ℕ → CircuitBreaker → Bool
counted ip j now c = text_beq ip j && leb fail_threshold (length (recent_times ip now c))

count_failure-blocked :
    (ip j : Text) (now : ℕ) (c : CircuitBreaker)
    → get j (count_failure ip now c).blocked
      ≡ (if counted ip j now c then some (now + cooldown) else get j c.blocked)
unfolding count_failure
count_failure-blocked ip j now c = ground (arith, get-put j ip (now + cooldown) c.blocked)

count_failure-IsUnique :
    (ip : Text) (now : ℕ) (c : CircuitBreaker)
    → IsUnique c.blocked
    → IsUnique (count_failure ip now c).blocked
unfolding count_failure
count_failure-IsUnique ip now c u = ground (arith, put-IsUnique ip (now + cooldown) c.blocked u)

prune-answer :
    (t_prune t : ℕ) (j : Text) (c : CircuitBreaker)
    → IsUnique c.blocked
    → t_prune ≤ t
    → answer (prune t_prune c) j t ≡ answer c j t
unfolding prune
prune-answer t_prune t j c u h = ground (arith, get-keep (λ until. leb t_prune until) j c.blocked u)

-- After a failure of `ip` the query about `j`, at a later time `t`, returns; it answers that `j` is
-- blocked exactly if `j` is `ip`, the failures in the window have reached the threshold and the
-- cooldown is not over, and otherwise as it did before the failure.
pub record_failure-is_blocked :
    (w w' : Bool) (ip j : Text) (now t_prune t_schedule t_save t t_save' : ℕ) (c : CircuitBreaker)
    → IsValid c
    → 0 < t
    → t_prune ≤ t
    → (c' : CircuitBreaker) × (is_blocked w' j t t_save'
          (record_failure w ip now t_prune t_schedule t_save c)
        ≡ some (
          c',
          if text_beq ip j && leb fail_threshold (length (recent_times ip now c))
              then leb t (now + cooldown)
              else answer c j t,
        ))
unfolding record_failure
record_failure-is_blocked w w' ip j now t_prune t_schedule t_save t t_save' c v pos h =
    let c1 = count_failure ip now c in
    let c2 = prune t_prune c1 in
    let c3 = schedule_save w t_schedule t_save c2 in
    let (c', e) = is_blocked_lem w' j t t_save' c3 pos in
    (
      c',
      e
          ∙ ap (λ b. some (c', b))
              (ap (λ d. answer_in d j t) (schedule_save-SameTables w t_schedule t_save c2).0
                ∙ prune-answer t_prune t j c1 (count_failure-IsUnique ip now c v.0.0) h
                ∙ ground (arith, count_failure-blocked ip j now c)),
    )

-- A success of `ip` makes the query about it return false at every positive time, leaves the answers
-- about other addresses alone, and the next failure of `ip` counts as its first.
pub record_success-clears :
    (w : Bool) (ip j : Text) (t t_save now : ℕ) (c : CircuitBreaker)
    → 0 < t
    → ((c' : CircuitBreaker) × (is_blocked w j t t_save (record_success ip c)
          ≡ some (c', if text_beq ip j then false else answer c j t)))
      × (recent_times ip now (record_success ip c) ≡ now ∷ [])
unfolding record_success
record_success-clears w ip j t t_save now c h =
    let (c', e) = is_blocked_lem w j t t_save (record_success ip c) h in
    (
      (c', e ∙ ap (λ b. some (c', b)) (ground (arith, get-remove j ip c.blocked))),
      ground (arith, get-remove ip ip c.failures, (text_beq_iff ip ip).1 refl),
    )

count_failure-few :
    (ip : Text) (now : ℕ) (c : CircuitBreaker)
    → length (recent_times ip now c) < fail_threshold
    → (count_failure ip now c).failures ≡ put ip (recent_times ip now c) c.failures
unfolding count_failure
count_failure-few ip now c few = ground arith

prune-failures :
    (now : ℕ) (c : CircuitBreaker)
    → length c.failures ≤ max_entries
    → (prune now c).failures ≡ c.failures
unfolding prune
prune-failures now c fits = ground arith

-- A table with room keeps what a failure below the threshold has put in it.
record_failure-failures :
    (w : Bool) (ip : Text) (now t_prune t_schedule t_save : ℕ) (c : CircuitBreaker)
    → length c.failures < max_entries
    → length (recent_times ip now c) < fail_threshold
    → (record_failure w ip now t_prune t_schedule t_save c).failures
      ≡ put ip (recent_times ip now c) c.failures
unfolding record_failure
record_failure-failures w ip now t_prune t_schedule t_save c room few =
    let c1 = count_failure ip now c in
    let e = count_failure-few ip now c few in
    let fits : length c1.failures ≤ max_entries =
      rw e (ground (arith, length-put ip (recent_times ip now c) c.failures)) in
    (schedule_save-SameTables w t_schedule t_save (prune t_prune c1)).1
    ∙ prune-failures t_prune c1 fits
    ∙ e

-- A failure for which all readings of the clock agree.
abbrev pub fail_at : Bool → Text → ℕ → CircuitBreaker → CircuitBreaker
fail_at w ip n = record_failure w ip n n n n

fail_at-recent_times :
    (w : Bool) (ip : Text) (n m : ℕ) (c : CircuitBreaker)
    → length c.failures < max_entries
    → length (recent_times ip n c) < fail_threshold
    → recent_times ip m (fail_at w ip n c) ≡ filter (recent m) (recent_times ip n c ++ (m ∷ []))
fail_at-recent_times w ip n m c room few =
    let e = record_failure-failures w ip n n n n c room few in
    ap (λ d. filter (recent m) (times_of ip d ++ (m ∷ []))) e
    ∙ ap (λ (ts : List ℕ). filter (recent m) (ts ++ (m ∷ [])))
        (ground
          (arith, get-put ip ip (recent_times ip n c) c.failures, (text_beq_iff ip ip).1 refl))

-- Three failures of an address without earlier ones, all within the window, block it: a query at any
-- time from the third failure to the end of its cooldown returns true, if the table of tracked
-- addresses has room for one more.
pub three_failures_block :
    (w : Bool) (ip : Text) (n1 n2 n3 t t_save : ℕ) (c : CircuitBreaker)
    → IsValid c
    → times_of ip c.failures ≡ []
    → length c.failures + 1 < max_entries
    → n1 ≤ n2
    → n2 ≤ n3
    → n3 < n1 + window
    → 0 < t
    → n3 ≤ t
    → t ≤ n3 + cooldown
    → (c' : CircuitBreaker) × (is_blocked w ip t t_save
          (fail_at w ip n3 (fail_at w ip n2 (fail_at w ip n1 c)))
        ≡ some (c', true))
three_failures_block w ip n1 n2 n3 t t_save c v clean room a b span pos from until =
    let first : recent_times ip n1 c ≡ n1 ∷ [] = rw clean (ground arith) in
    let few1 : length (recent_times ip n1 c) < fail_threshold = rw first (omega arith) in
    let c1 = fail_at w ip n1 c in
    let second : recent_times ip n2 c1 ≡ n1 ∷ n2 ∷ [] =
      fail_at-recent_times w ip n1 n2 c (omega arith) few1 ∙ rw first (ground arith) in
    let few2 : length (recent_times ip n2 c1) < fail_threshold = rw second (omega arith) in
    let room1 : length c1.failures < max_entries =
      rw (record_failure-failures w ip n1 n1 n1 n1 c (omega arith) few1)
        (ground (arith, length-put ip (recent_times ip n1 c) c.failures)) in
    let c2 = fail_at w ip n2 c1 in
    let third : recent_times ip n3 c2 ≡ n1 ∷ n2 ∷ n3 ∷ [] =
      fail_at-recent_times w ip n2 n3 c1 room1 few2 ∙ rw second (ground arith) in
    let v1 = record_failure-IsValid w ip n1 n1 n1 n1 c v in
    let v2 = record_failure-IsValid w ip n2 n2 n2 n2 c1 v1 in
    let (c', e) = record_failure-is_blocked w w ip ip n3 n3 n3 n3 t t_save c2 v2 pos from in
    (c', e ∙ rw third (ground (arith, (text_beq_iff ip ip).1 refl)))
