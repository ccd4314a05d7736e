-- ===== src/Tunnel/Pool/Repair.antt =====
-- The reconnect tasks of `TunnelPool` in client/core/tunnel.py: a tunnel that is down has one.
use vpnself.Prelude.{
  ℕ, ◌+◌, ◌≡◌, ◌⊎◌, inl, inr, refl, sym, true, false, Option, none, some, List, [], ◌∷◌, ◌++◌,
  if◌then◌else◌, Bool-cases, arith, if_both, ◌==◌, ==_iff,
}
use mathlib.Core.Path.{subst}
use vpnself.Tunnel.Pool.{PoolTunnel, is_reconnecting, schedule, find_tunnel, disconnected}

-- Each of the tunnels from the index `i` on is up or has a task that reconnects it.
abbrev pub AreCovered : List ℕ → ℕ → List PoolTunnel → Type 0
AreCovered tasks i [] = Unit
AreCovered tasks i (t ∷ ts) =
    ((t.connected ≡ true) ⊎ (is_reconnecting i tasks ≡ true)) × AreCovered tasks (i + 1) ts

-- No other tunnel has the index of a tunnel.
abbrev pub AreDistinct : List PoolTunnel → Type 0
AreDistinct [] = Unit
AreDistinct (t ∷ ts) = (find_tunnel t.pool_index 0 ts ≡ none) × AreDistinct ts

unfoldable pub Covers : List ℕ → List ℕ → Type 0
Covers tasks tasks' = (i : ℕ) → is_reconnecting i tasks ≡ true → is_reconnecting i tasks' ≡ true

pub AreCovered-more :
    (tasks tasks' : List ℕ) (i : ℕ) (ts : List PoolTunnel)
    → Covers tasks tasks'
    → AreCovered tasks i ts
    → AreCovered tasks' i ts
unfolding Covers
AreCovered-more tasks tasks' i [] more h = tt
AreCovered-more tasks tasks' i (t ∷ ts) more (inl up, h) =
    (inl up, AreCovered-more tasks tasks' (i + 1) ts more h)
AreCovered-more tasks tasks' i (t ∷ ts) more (inr down, h) =
    (inr (more i down), AreCovered-more tasks tasks' (i + 1) ts more h)

is_reconnecting-append :
    (i : ℕ) (xs ys : List ℕ) → is_reconnecting i xs ≡ true → is_reconnecting i (xs ++ ys) ≡ true
is_reconnecting-append i [] ys h = absurd cc
is_reconnecting-append i (x ∷ xs) ys h = ground (arith, is_reconnecting-append i xs ys)

is_reconnecting-last : (i : ℕ) (xs : List ℕ) → is_reconnecting i (xs ++ (i ∷ [])) ≡ true
is_reconnecting-last i [] = ground (arith, ==_iff i i)
is_reconnecting-last i (x ∷ xs) = ground (arith, is_reconnecting-last i xs)

pub schedule-Covers : (i : ℕ) (tasks : List ℕ) → Covers tasks (schedule i tasks)
unfolding Covers
schedule-Covers i tasks j h =
    if_both (λ ts. is_reconnecting j ts ≡ true) (is_reconnecting i tasks) tasks (tasks ++ (i ∷ []))
      (λ _. h) (λ _. is_reconnecting-append j tasks (i ∷ []) h)

pub is_reconnecting-schedule :
    (i : ℕ) (tasks : List ℕ) → is_reconnecting i (schedule i tasks) ≡ true
is_reconnecting-schedule i tasks =
    if_both (λ ts. is_reconnecting i ts ≡ true) (is_reconnecting i tasks) tasks (tasks ++ (i ∷ []))
      (λ q. q) (λ _. is_reconnecting-last i tasks)

-- The search from another index.
find_tunnel-none :
    (k i j : ℕ) (ts : List PoolTunnel) → find_tunnel k i ts ≡ none → find_tunnel k j ts ≡ none
find_tunnel-none k i j [] h = refl
find_tunnel-none k i j (t ∷ ts) h = ground (arith, find_tunnel-none k (i + 1) (j + 1) ts)

disconnected_absent :
    (k i : ℕ) (ts : List PoolTunnel) → find_tunnel k i ts ≡ none → disconnected k ts ≡ ts
disconnected_absent k i [] h = refl
disconnected_absent k i (t ∷ ts) h = ground (arith, disconnected_absent k (i + 1) ts)

abbrev pub scheduled : Option ℕ → List ℕ → List ℕ
scheduled none tasks = tasks
scheduled (some i) tasks = schedule i tasks

pub scheduled-Covers : (o : Option ℕ) (tasks : List ℕ) → Covers tasks (scheduled o tasks)
unfolding Covers
scheduled-Covers none tasks j h = h
scheduled-Covers (some i) tasks j h = schedule-Covers i tasks j h

-- A tunnel that is lost is down, and `_on_tunnel_lost` starts the task for it.
pub disconnected-AreCovered :
    (k i : ℕ) (tasks : List ℕ) (ts : List PoolTunnel)
    → AreDistinct ts
    → AreCovered tasks i ts
    → AreCovered (scheduled (find_tunnel k i ts) tasks) i (disconnected k ts)
disconnected-AreCovered k i tasks [] u h = tt
disconnected-AreCovered k i tasks (t ∷ ts) u (head, h) = elim (Bool-cases (t.pool_index == k)) [
  | inl q ↦
      let same : t.pool_index ≡ k = (==_iff t.pool_index k).0 q in
      let rest : disconnected k ts ≡ ts =
        disconnected_absent k 0 ts (subst (λ x. find_tunnel x 0 ts ≡ none) same u.0) in
      subst
        (λ b.
          AreCovered (scheduled (if b then some i else find_tunnel k (i + 1) ts) tasks) i
            ((if b then record t { connected = false } else t) ∷ disconnected k ts))
        (sym q)
        (
          inr (is_reconnecting-schedule i tasks),
          subst (AreCovered (schedule i tasks) (i + 1)) (sym rest)
              (AreCovered-more tasks (schedule i tasks) (i + 1) ts (schedule-Covers i tasks) h),
        )
  | inr q ↦
      subst
        (λ b.
          AreCovered (scheduled (if b then some i else find_tunnel k (i + 1) ts) tasks) i
            ((if b then record t { connected = false } else t) ∷ disconnected k ts))
        (sym q)
        (
          (AreCovered-more tasks (scheduled (find_tunnel k (i + 1) ts) tasks) i (t ∷ [])
              (scheduled-Covers (find_tunnel k (i + 1) ts) tasks) (head, tt)).0,
          disconnected-AreCovered k (i + 1) tasks ts u.1 h,
        )
]
