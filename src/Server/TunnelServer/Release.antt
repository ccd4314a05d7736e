-- ===== src/Server/TunnelServer/Release.antt =====
-- The end of a connection in server/tunnel_server.py: its relays.
use vpnself.Prelude.{
  ℕ, ◌≡◌, ◌≢◌, ◌⊎◌, ◌∙◌, inl, inr, refl, sym, ap, true, false, none, some, List, [], ◌∷◌, ◌++◌,
  arith, nat_eq, Bool-cases, ==_iff, ◌==◌, any, if_both,
}
use mathlib.Core.Path.{subst}
use vpnself.Prelude.Dict.{get, keys, get-remove}
use vpnself.Server.Relay.{ForwardRelay}
use vpnself.Server.ForwardProxy.{ForwardProxy, make_key, get_relay, remove_relay, register}
use vpnself.Server.TunnelServer.{
  Connection, Effect, closes, connected, flushed, not_connected, cancel_stream, buffered,
  is_deferred,
}
use vpnself.Server.TunnelServer.Isolation.{get-remove_relay, get-register, get-write_relay}
use vpnself.Server.TunnelServer.CleanUp.{
  IsListed, Meanwhile, connects_late, flushes, fails, is_done, CleansUp, ends_loop, round, waits,
  Closes,
}
use vpnself.Server.TunnelServer.Emptied.{CleansUp-empty, keys-AreListed}

Closes-before : (r : ForwardRelay) (xs ys : List Effect) → Closes r xs → Closes r (xs ++ ys)
Closes-before r [] ys h = absurd h
Closes-before r (x ∷ xs) ys (inl h) = inl h
Closes-before r (x ∷ xs) ys (inr h) = inr (Closes-before r xs ys h)

Closes-behind : (r : ForwardRelay) (xs ys : List Effect) → Closes r ys → Closes r (xs ++ ys)
Closes-behind r [] ys h = h
Closes-behind r (x ∷ xs) ys h = inr (Closes-behind r xs ys h)

-- `remove_relay` closes the relay that it finds, and takes it out of the table.
remove_relay-Closes :
    (client_id sid : ℕ) (p : ForwardProxy) (r : ForwardRelay)
    → get_relay client_id sid p ≡ some r
    → Closes r (closes (remove_relay client_id sid p).0)
unfolding remove_relay get_relay
remove_relay-Closes client_id sid p r h =
    let found : (remove_relay client_id sid p).0 ≡ some (record r { active = false }) =
      rw (h, remove_relay) refl in
    subst (λ o. Closes r (closes o)) (sym found) (inl refl)

remove_relay-gone :
    (k client_id sid : ℕ) (p : ForwardProxy)
    → (get k p.active_relays ≡ none) ⊎ (make_key client_id sid ≡ k)
    → get k (remove_relay client_id sid p).1.active_relays ≡ none
unfolding remove_relay
remove_relay-gone k client_id sid p (inl h) =
    ground (arith, get-remove k (make_key client_id sid) p.active_relays)
remove_relay-gone k client_id sid p (inr h) = ground (
  arith,
  get-remove k (make_key client_id sid) p.active_relays,
  ==_iff (make_key client_id sid) k,
)

module _ (client_id : ℕ) where
  -- The relay at a key is there after a step, or the step has closed it.
  abbrev Survives : ℕ → ForwardRelay → List Effect → Connection → Type 0
  Survives k r es c = Closes r es ⊎ (get k c.proxy.active_relays ≡ some r)

  remove_relay-Survives :
      (sid : ℕ) (p : ForwardProxy) (k : ℕ) (r : ForwardRelay)
      → get k p.active_relays ≡ some r
      → Closes r (closes (remove_relay client_id sid p).0)
        ⊎ (get k (remove_relay client_id sid p).1.active_relays ≡ some r)
  unfolding get_relay
  remove_relay-Survives sid p k r h = elim (Bool-cases (make_key client_id sid == k)) [
    | inl q ↦
        let same : make_key client_id sid ≡ k = (==_iff (make_key client_id sid) k).0 q in
        inl (remove_relay-Closes client_id sid p r (ap (λ i. get i p.active_relays) same ∙ h))
    | inr q ↦
        let other : k ≢ make_key client_id sid =
          ground (arith, ==_iff (make_key client_id sid) k, q) in
        inr (get-remove_relay k client_id sid other p ∙ h)
  ]

  connected-Survives :
      (i : ℕ) (new : ForwardRelay) (c : Connection) (k : ℕ) (r : ForwardRelay)
      → get_relay client_id i c.proxy ≡ none
      → get k c.proxy.active_relays ≡ some r
      → get k (connected client_id i new c).proxy.active_relays ≡ some r
  unfolding connected get_relay
  connected-Survives i new c k r free h =
      let other : k ≢ make_key client_id i =
        λ same. let found = ap (λ j. get j c.proxy.active_relays) same in absurd cc in
      get-write_relay k client_id i other (register client_id i new c.proxy) (buffered i c)
      ∙ get-register k client_id i other c.proxy new
      ∙ h

  Meanwhile-Survives :
      (sids : List ℕ) (c : Connection) (step : List Effect × Connection) (k : ℕ) (r : ForwardRelay)
      → Meanwhile client_id sids c step
      → get k c.proxy.active_relays ≡ some r
      → Survives k r step.0 step.1
  unfolding flushed not_connected
  Meanwhile-Survives sids c _ k r (connects_late i new _ free) h =
      inr (connected-Survives i new c k r free h)
  Meanwhile-Survives sids c _ k r (flushes i _) h =
      if_both (λ (x : List Effect × Connection). Survives k r x.0 x.1)
        (is_deferred i c.deferred_close) _ _ (λ _. remove_relay-Survives i c.proxy k r h)
        (λ _. inr h)
  Meanwhile-Survives sids c _ k r (fails i) h = inr h
  Meanwhile-Survives sids c _ k r (is_done i) h = remove_relay-Survives i c.proxy k r h

  -- The key of a stream that is still to come.
  abbrev IsDue : ℕ → List ℕ → Type 0
  IsDue k sids = (i : ℕ) × IsListed i sids × (make_key client_id i ≡ k)

  IsDue-next :
      (k sid : ℕ) (sids : List ℕ)
      → IsDue k (sid ∷ sids)
      → (make_key client_id sid ≡ k) ⊎ IsDue k sids
  IsDue-next k sid sids (i, listed, e) = elim (Bool-cases (sid == i)) [
    | inl q ↦ inl (ap (make_key client_id) ((==_iff sid i).0 q) ∙ e)
    | inr q ↦ inr (i, ground (arith, q, listed), e)
  ]

  CleansUp-Closes :
      (sids : List ℕ) (c : Connection) (es : List Effect) (c' : Connection) (k : ℕ)
      (r : ForwardRelay)
      → CleansUp client_id sids c es c'
      → IsDue k sids
      → get k c.proxy.active_relays ≡ some r
      → Closes r es
  unfolding get_relay
  CleansUp-Closes _ c _ _ k r (ends_loop _) (i, listed, _) h = absurd cc
  CleansUp-Closes _ c _ c' k r (round sid sids _ es _ rest) due h =
      let first = (cancel_stream client_id sid c).0 in
      elim (remove_relay-Survives sid c.proxy k r h) [
        | inl closed ↦ Closes-before r first es (Closes-before r _ _ closed)
        | inr kept ↦ elim (IsDue-next k sid sids due) [
          | inl same ↦ let gone = remove_relay-gone k client_id sid c.proxy (inr same) in absurd cc
          | inr due' ↦
              Closes-behind r first es
                (CleansUp-Closes sids (cancel_stream client_id sid c).1 es c' k r rest due' kept)
        ]
      ]
  CleansUp-Closes sids c _ c' k r (waits _ _ step es _ m rest) due h =
      elim (Meanwhile-Survives sids c step k r m h) [
        | inl closed ↦ Closes-before r step.0 es closed
        | inr kept ↦ Closes-behind r step.0 es (CleansUp-Closes sids step.1 es c' k r rest due kept)
      ]

  abbrev IsGone : ℕ → Connection → Type 0
  IsGone k c = get k c.proxy.active_relays ≡ none

  connected-IsGone :
      (i : ℕ) (new : ForwardRelay) (c : Connection) (k : ℕ)
      → k ≢ make_key client_id i
      → IsGone k c
      → IsGone k (connected client_id i new c)
  unfolding connected
  connected-IsGone i new c k other h =
      get-write_relay k client_id i other (register client_id i new c.proxy) (buffered i c)
      ∙ get-register k client_id i other c.proxy new
      ∙ h

  Meanwhile-IsGone :
      (sids : List ℕ) (c : Connection) (step : List Effect × Connection) (k : ℕ)
      → Meanwhile client_id sids c step
      → IsGone k c
      → IsGone k step.1 ⊎ IsDue k sids
  unfolding flushed not_connected
  Meanwhile-IsGone sids c _ k (connects_late i new listed _) h =
      elim (Bool-cases (make_key client_id i == k)) [
        | inl q ↦ inr (i, listed, (==_iff (make_key client_id i) k).0 q)
        | inr q ↦
            inl (connected-IsGone i new c k (ground (arith, ==_iff (make_key client_id i) k, q)) h)
      ]
  Meanwhile-IsGone sids c _ k (flushes i _) h = inl (
      if_both (λ (x : List Effect × Connection). IsGone k x.1) (is_deferred i c.deferred_close) _ _
        (λ _. remove_relay-gone k client_id i c.proxy (inl h)) (λ _. h))
  Meanwhile-IsGone sids c _ k (fails i) h = inl h
  Meanwhile-IsGone sids c _ k (is_done i) h = inl (remove_relay-gone k client_id i c.proxy (inl h))

  CleansUp-IsGone :
      (sids : List ℕ) (c : Connection) (es : List Effect) (c' : Connection) (k : ℕ)
      → CleansUp client_id sids c es c'
      → IsGone k c ⊎ IsDue k sids
      → IsGone k c'
  CleansUp-IsGone _ c _ _ k (ends_loop _) h = elim h [
    | inl gone ↦ gone
    | inr (i, listed, _) ↦ absurd cc
  ]
  CleansUp-IsGone _ c _ c' k (round sid sids _ es _ rest) h =
      CleansUp-IsGone sids (cancel_stream client_id sid c).1 es c' k rest (elim h [
        | inl gone ↦ inl (remove_relay-gone k client_id sid c.proxy (inl gone))
        | inr due ↦ elim (IsDue-next k sid sids due) [
          | inl same ↦ inl (remove_relay-gone k client_id sid c.proxy (inr same))
          | inr due' ↦ inr due'
        ]
      ])
  CleansUp-IsGone sids c _ c' k (waits _ _ step es _ m rest) h =
      CleansUp-IsGone sids step.1 es c' k rest
        (elim h [ inl gone ↦ Meanwhile-IsGone sids c step k m gone | inr due ↦ inr due ])

  -- The `finally` block over the streams of the table, with any steps of `Meanwhile` in between,
  -- leaves the three tables empty. A relay that a stream of the table has at the start is closed on
  -- the way, and at the end no such stream has a relay.
  pub CleansUp-releases :
      (c : Connection) (es : List Effect) (c' : Connection)
      → CleansUp client_id (keys c.active_streams) c es c'
      → ((c'.active_streams ≡ []) × (c'.pending_data ≡ []) × (c'.deferred_close ≡ []))
        × ((sid : ℕ)
            → any (λ i. i == sid) (keys c.active_streams) ≡ true
            → ((r : ForwardRelay) → get_relay client_id sid c.proxy ≡ some r → Closes r es)
              × (get_relay client_id sid c'.proxy ≡ none))
  unfolding get_relay
  CleansUp-releases c es c' run =
      let sids = keys c.active_streams in
      (
        CleansUp-empty client_id sids c es c' run (keys-AreListed client_id c.active_streams),
        λ sid listed.
            let key = make_key client_id sid in
            (
              (λ r found. CleansUp-Closes sids c es c' key r run (sid, listed, refl) found),
              CleansUp-IsGone sids c es c' key run (inr (sid, listed, refl)),
            ),
      )
