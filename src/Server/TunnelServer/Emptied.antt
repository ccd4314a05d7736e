-- ===== src/Server/TunnelServer/Emptied.antt =====
-- The end of a connection in server/tunnel_server.py: its tables.
use vpnself.Prelude.{
  ℕ, ◌≡◌, ◌⊎◌, inl, inr, refl, none, List, [], ◌∷◌, arith, nat_eq, Bool-cases, ==_iff, ◌==◌,
  if_both,
}
use mathlib.Core.Path.{subst}
use vpnself.Prelude.Dict.{Dict, get, put, remove, keys, get-put, get-remove}
use vpnself.Server.TunnelServer.{
  Connection, Effect, Task, relays, connected, flushed, not_connected, cancel_stream, is_deferred,
}
use vpnself.Server.TunnelServer.CleanUp.{
  IsListed, Meanwhile, connects_late, flushes, fails, is_done, CleansUp, ends_loop, round, waits,
}

module _ (client_id : ℕ) where
  -- Every stream of the table is among those still to come.
  abbrev pub AreListed : List ℕ → Dict ℕ Task → Type 0
  AreListed sids d = (j : ℕ) → (get j d ≡ none) ⊎ (IsListed j sids)

  AreListed-remove :
      (sid : ℕ) (sids : List ℕ) (d : Dict ℕ Task)
      → AreListed (sid ∷ sids) d
      → AreListed sids (remove sid d)
  AreListed-remove sid sids d h j = elim (h j) [
    | inl gone ↦ inl (ground (arith, get-remove j sid d, gone))
    | inr listed ↦ elim (Bool-cases (sid == j)) [
      | inl q ↦ inl (ground (arith, get-remove j sid d, q))
      | inr q ↦ inr (ground (arith, listed, q))
    ]
  ]

  empty_dict : (d : Dict ℕ Task) → ((j : ℕ) → get j d ≡ none) → d ≡ []
  empty_dict [] h = refl
  empty_dict ((k, t) ∷ d) h =
      absurd (let gone : get k ((k, t) ∷ d) ≡ none = h k in ground (arith, gone, ==_iff k k))

  pub keys-AreListed : (d : Dict ℕ Task) → AreListed (keys d) d
  keys-AreListed [] j = inl refl
  keys-AreListed ((k, t) ∷ d) j = elim (keys-AreListed d j) [
    | inl gone ↦ elim (Bool-cases (k == j)) [
      | inl q ↦ inr (ground (arith, q))
      | inr q ↦ inl (ground (arith, q, gone))
    ]
    | inr listed ↦ inr (ground (arith, listed))
  ]

  AreListed-removed :
      (sid : ℕ) (sids : List ℕ) (d : Dict ℕ Task) → AreListed sids d → AreListed sids (remove sid d)
  AreListed-removed sid sids d h j = elim (h j) [
    | inl gone ↦ inl (ground (arith, get-remove j sid d, gone))
    | inr listed ↦ inr listed
  ]

  AreListed-put :
      (i : ℕ) (t : Task) (sids : List ℕ) (d : Dict ℕ Task)
      → IsListed i sids
      → AreListed sids d
      → AreListed sids (put i t d)
  AreListed-put i t sids d listed h j = elim (h j) [
    | inr due ↦ inr due
    | inl gone ↦ elim (Bool-cases (i == j)) [
      | inl q ↦ inr (subst (λ x. IsListed x sids) ((==_iff i j).0 q) listed)
      | inr q ↦ inl (ground (arith, get-put j i t d, q, gone))
    ]
  ]

  Meanwhile-AreListed :
      (sids : List ℕ) (c : Connection) (step : List Effect × Connection)
      → Meanwhile client_id sids c step
      → AreListed sids c.active_streams
      → AreListed sids step.1.active_streams
  unfolding flushed not_connected connected
  Meanwhile-AreListed sids c _ (connects_late i new _ _) h = h
  Meanwhile-AreListed sids c _ (flushes i listed) h =
      if_both (λ (x : List Effect × Connection). AreListed sids x.1.active_streams)
        (is_deferred i c.deferred_close) _ _ (λ _. h)
        (λ _. AreListed-put i relays sids c.active_streams listed h)
  Meanwhile-AreListed sids c _ (fails i) h = AreListed-removed i sids c.active_streams h
  Meanwhile-AreListed sids c _ (is_done i) h = AreListed-removed i sids c.active_streams h

  pub CleansUp-empty :
      (sids : List ℕ) (c : Connection) (es : List Effect) (c' : Connection)
      → CleansUp client_id sids c es c'
      → AreListed sids c.active_streams
      → (c'.active_streams ≡ []) × (c'.pending_data ≡ []) × (c'.deferred_close ≡ [])
  CleansUp-empty _ c _ _ (ends_loop _) h = (
    empty_dict c.active_streams (λ j. elim (h j) [ inl gone ↦ gone | inr listed ↦ absurd cc ]),
    refl,
    refl,
  )
  CleansUp-empty _ c _ c' (round sid sids _ es _ rest) h =
      CleansUp-empty sids (cancel_stream client_id sid c).1 es c' rest
        (AreListed-remove sid sids c.active_streams h)
  CleansUp-empty sids c _ c' (waits _ _ step es _ m rest) h =
      CleansUp-empty sids step.1 es c' rest (Meanwhile-AreListed sids c step m h)
