-- ===== src/CircuitBreaker/Tests.antt =====
-- The theorems about the circuit breaker at concrete states.
use vpnself.Prelude.{◌≡◌, refl, true, false, some, none, [], ◌∷◌, Text, codes, arith}
use vpnself.CircuitBreaker.{
  CircuitBreaker, create, is_blocked, record_failure, record_success, save, recent_times,
}
use vpnself.CircuitBreaker.Invariant.{IsValid, here, then_call, failure, success, Reaches-IsValid}
use vpnself.CircuitBreaker.Blocking.{answer, record_failure-is_blocked}
use vpnself.CircuitBreaker.Persistence.{create-save, create-record_success}

abbrev ip : Text
ip = codes "1.2.3.4"

abbrev other_ip : Text
other_ip = codes "5.6.7.8"

-- Two failures of `ip`; the other address is blocked until 200000.
abbrev start : CircuitBreaker
start = record {
  failures = (ip, 1000 ∷ 2000 ∷ []) ∷ [];
  blocked = (other_ip, 200000) ∷ [];
  tls_reject_total = 0;
  last_save = 0;
  save_dirty = false;
  disk = none;
}

start-IsValid : IsValid start
start-IsValid = (((refl, tt), (refl, tt), (omega arith, tt), omega arith), tt)

Reaches-IsValid_example :
    IsValid (record_success ip (record_failure true ip 3000 3000 3000 3000 start))
Reaches-IsValid_example =
    Reaches-IsValid start-IsValid
      (then_call (then_call here (failure true ip 3000 3000 3000 3000 start)) (success ip _))

record_failure-is_blocked_example :
    (c' : CircuitBreaker) × (is_blocked true ip 4000 4000
        (record_failure true ip 3000 3000 3000 3000 start)
      ≡ some (c', true))
record_failure-is_blocked_example =
    record_failure-is_blocked true true ip ip 3000 3000 3000 3000 4000 4000 start start-IsValid
      (omega arith) (omega arith)

create-save_example :
    let c' = create 5000 (save true 4000 start).disk in
    (answer c' other_ip 6000 ≡ true)
    × (recent_times other_ip 6000 c' ≡ recent_times other_ip 6000 start)
create-save_example =
    create-save other_ip 4000 5000 6000 start start-IsValid (omega arith) (omega arith)

create-record_success_example :
    (answer (record_success other_ip (save true 4000 start)) other_ip 6000 ≡ false)
    × (answer (create 5000 (record_success other_ip (save true 4000 start)).disk) other_ip 6000
        ≡ true)
create-record_success_example =
    create-record_success other_ip 4000 5000 6000 start start-IsValid (omega arith) (omega arith)
      refl
