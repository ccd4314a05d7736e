-- ===== src/CircuitBreaker.antt =====
-- client/core/circuit_breaker.py. Times are whole milliseconds where Python has float seconds, and
-- each reading of the clock is an argument of its own. The state file is a field of the state.
pub mod Invariant
pub mod Blocking
pub mod Persistence
mod Tests
use vpnself.Prelude.{
  ℕ, ◌+◌, ◌-◌, ◌*◌, Bool, true, false, ◌&&◌, Option, none, some, List, [], ◌∷◌, ◌++◌, if◌then◌else◌,
  ltb, leb, length, filter, drop, Text, text_eq,
}
use vpnself.Prelude.Dict.{Dict, get, put, remove, keep, contains}
use vpnself.Prelude.Dict.Newest.{newest}

abbrev pub fail_threshold : ℕ
fail_threshold = 3

-- COOLDOWN_SECONDS, in milliseconds.
abbrev pub cooldown : ℕ
cooldown = 120 * 1000

abbrev pub max_entries : ℕ
max_entries = 500

-- `window = COOLDOWN_SECONDS * 3`
abbrev pub window : ℕ
window = cooldown * 3

-- The JSON document of the state file.
pub record Saved : Type 0 where
  pub blocked : Dict Text ℕ
  pub failures : Dict Text (List ℕ)

-- `disk` is the state file: `none` where there is no readable one.
pub record CircuitBreaker : Type 0 where
  pub failures : Dict Text (List ℕ)
  pub blocked : Dict Text ℕ
  pub tls_reject_total : ℕ
  pub last_save : ℕ
  pub save_dirty : Bool
  pub disk : Option Saved

-- `now - t < window`
abbrev pub recent : ℕ → ℕ → Bool
recent now t = ltb now (t + window)

-- `times[-20:]`
abbrev last_twenty : List ℕ → List ℕ
last_twenty times = drop (length times - 20) times

abbrev pub not_empty : List ℕ → Bool
not_empty [] = false
not_empty (t ∷ ts) = true

-- `{ip: times[-20:] for ip, times in failures.items() if times}`
abbrev pub saved_failures : Dict Text (List ℕ) → Dict Text (List ℕ)
saved_failures [] = []
saved_failures ((ip, times) ∷ d) =
    if not_empty times then (ip, last_twenty times) ∷ saved_failures d else saved_failures d

-- `save`; `writable` says that no OSError comes.
unfoldable pub save : Bool → ℕ → CircuitBreaker → CircuitBreaker
save writable now c =
    if writable
    then record c {
      disk = some (record {
        blocked = keep (λ until. leb now until) c.blocked;
        failures = saved_failures c.failures;
      });
    }
    else c

-- `_maybe_save(now)`; `t` is the reading in `save`.
unfoldable pub maybe_save : Bool → ℕ → ℕ → CircuitBreaker → CircuitBreaker
maybe_save writable now t c =
    if c.save_dirty && ltb (c.last_save + 2000) now
    then record (save writable t c) { last_save = now; save_dirty = false }
    else c

unfoldable pub schedule_save : Bool → ℕ → ℕ → CircuitBreaker → CircuitBreaker
schedule_save writable now t c =
    let dirty = record c { save_dirty = true } in
    if ltb (c.last_save + 2000) now then maybe_save writable now t dirty else dirty

-- `max(kv[1]) if kv[1] else 0`
abbrev pub latest : List ℕ → ℕ
latest [] = 0
latest (t ∷ ts) = if ltb t (latest ts) then latest ts else t

unfoldable pub prune : ℕ → CircuitBreaker → CircuitBreaker
prune now c = record c {
  blocked = keep (λ until. leb now until) c.blocked;
  failures =
      if ltb max_entries (length c.failures)
      then newest latest max_entries c.failures
      else c.failures;
}

-- The list of a `defaultdict(list)`.
abbrev pub times_of : Text → Dict Text (List ℕ) → List ℕ
times_of ip d = elim (get ip d) [ none ↦ [] | some ts ↦ ts ]

-- The failures of `ip` that still count, the one at `now` included.
abbrev pub recent_times : Text → ℕ → CircuitBreaker → List ℕ
recent_times ip now c = filter (recent now) (times_of ip c.failures ++ (now ∷ []))

-- `record_failure` before `_prune`.
unfoldable pub count_failure : Text → ℕ → CircuitBreaker → CircuitBreaker
count_failure ip now c =
    let times = recent_times ip now c in
    if leb fail_threshold (length times)
    then record c {
      blocked = put ip (now + cooldown) c.blocked;
      failures = remove ip (put ip times c.failures);
    }
    else record c { failures = put ip times c.failures }

-- `record_failure`, with the readings of the clock in it, in `_prune`, `_schedule_save` and `save`.
unfoldable pub record_failure : Bool → Text → ℕ → ℕ → ℕ → ℕ → CircuitBreaker → CircuitBreaker
record_failure writable ip now t_prune t_schedule t_save c =
    schedule_save writable t_schedule t_save (prune t_prune (count_failure ip now c))

unfoldable pub record_success : Text → CircuitBreaker → CircuitBreaker
record_success ip c = record c { failures = remove ip c.failures; blocked = remove ip c.blocked }

unfoldable pub record_tls_reject : Text → CircuitBreaker → CircuitBreaker
record_tls_reject ip c = record c { tls_reject_total = c.tls_reject_total + 1 }

-- `self._blocked.get(ip, 0)`
abbrev pub blocked_until : Text → CircuitBreaker → ℕ
blocked_until ip c = elim (get ip c.blocked) [ none ↦ 0 | some until ↦ until ]

-- `is_blocked`; `none` is the KeyError of `self._blocked[ip]`.
unfoldable pub is_blocked : Bool → Text → ℕ → ℕ → CircuitBreaker → Option (CircuitBreaker × Bool)
is_blocked writable ip now t_save c =
    let c' = maybe_save writable now t_save c in
    if ltb (blocked_until ip c') now
    then some (record c' { blocked = remove ip c'.blocked }, false)
    else if contains ip c'.blocked
    then some (c', true)
    else none

unfoldable pub get_blocked_count : ℕ → CircuitBreaker → ℕ
get_blocked_count now c = length (keep (λ until. leb now until) c.blocked)

abbrev sum_lengths : Dict Text (List ℕ) → ℕ
sum_lengths [] = 0
sum_lengths ((ip, times) ∷ d) = length times + sum_lengths d

unfoldable pub get_failure_count : CircuitBreaker → ℕ
get_failure_count c = sum_lengths c.failures

unfoldable pub get_tls_reject_count : CircuitBreaker → ℕ
get_tls_reject_count c = c.tls_reject_total

-- The second loop of `_load`: the recent times, where there are any.
abbrev pub loaded_failures : ℕ → Dict Text (List ℕ) → Dict Text (List ℕ)
loaded_failures now [] = []
loaded_failures now ((ip, times) ∷ d) =
    let kept = filter (recent now) times in
    if not_empty kept then (ip, kept) ∷ loaded_failures now d else loaded_failures now d

abbrev load_saved : ℕ → Option Saved → Dict Text ℕ × Dict Text (List ℕ)
load_saved now none = ([], [])
load_saved now (some s) = (keep (λ until. ltb now until) s.blocked, loaded_failures now s.failures)

-- `CircuitBreaker(path)` over a state file, `_load` included.
unfoldable pub create : ℕ → Option Saved → CircuitBreaker
create now file =
    let (blocked, failures) = load_saved now file in
    record {
      failures = failures;
      blocked = blocked;
      tls_reject_total = 0;
      last_save = 0;
      save_dirty = false;
      disk = file;
    }
