-- ===== src/Server/ForwardProxy/Attempts.antt =====
-- The calls of `connect_target` in server/forward_proxy.py that run at the same time: where each
-- one waits, and the steps that they take in any order.
use vpnself.Prelude.{ℕ, ◌≡◌, Bool, List, [], ◌∷◌, ◌++◌, Text}
use vpnself.Net.{Library}
use vpnself.Server.ForwardProxy.{
  ForwardProxy, Resolver, Next, refuse, raises, resolve_host, open_address, Opened, begin_connect,
  resolved, opened, register, remove_relay,
}
use vpnself.Server.Relay.{new_relay}

-- The place where a call waits: for the resolver, to open an address, or for the write of CONNECT_OK.
pub data Stage : Type 0 where
  resolves : Stage
  opens : Text → Stage
  answers : Stage

pub record Attempt : Type 0 where
  pub client_id : ℕ
  pub stream_id : ℕ
  pub host : Text
  pub stage : Stage

pub record System : Type 0 where
  pub proxy : ForwardProxy
  pub attempts : List Attempt

abbrev pub stage_of : Next → List Stage
stage_of (refuse f) = []
stage_of raises = []
stage_of resolve_host = resolves ∷ []
stage_of (open_address ip) = opens ip ∷ []

-- A call after a step: it is over, or it waits at a new place.
abbrev pub go_on : Attempt → List Stage → List Attempt
go_on a [] = []
go_on a (s ∷ _) = record a { stage = s } ∷ []

abbrev pub stage_after : Opened → List Stage
stage_after Opened.connected = answers ∷ []
stage_after Opened.timed_out = []
stage_after (Opened.broken e) = []

-- One step, with the addresses that `open_connection` is called with in it.
pub data Step (py : Library) (net : Resolver) : System → List Text → System → Type 0 where
  begins :
      (now : ℕ) (a : Attempt) (s : System)
      → Step py net s [] (record {
        proxy = (begin_connect py net now a.stream_id a.host s.proxy).1;
        attempts =
            s.attempts
            ++ go_on a (stage_of (begin_connect py net now a.stream_id a.host s.proxy).0);
      })
  resolves :
      (in_time : Bool) (now : ℕ) (a : Attempt) (xs ys : List Attempt) (s : System)
      → s.attempts ≡ xs ++ (a ∷ ys)
      → a.stage ≡ Stage.resolves
      → Step py net s [] (record {
        proxy = (resolved py net in_time now a.stream_id a.host s.proxy).1;
        attempts =
            xs
            ++ (go_on a (stage_of (resolved py net in_time now a.stream_id a.host s.proxy).0)
                ++ ys);
      })
  opens :
      (result : Opened) (ip : Text) (a : Attempt) (xs ys : List Attempt) (s : System)
      → s.attempts ≡ xs ++ (a ∷ ys)
      → a.stage ≡ Stage.opens ip
      → Step py net s (ip ∷ []) (record {
        proxy = (opened result a.stream_id s.proxy).2;
        attempts = xs ++ (go_on a (stage_after result) ++ ys);
      })
  registers :
      (a : Attempt) (xs ys : List Attempt) (s : System)
      → s.attempts ≡ xs ++ (a ∷ ys)
      → a.stage ≡ answers
      → Step py net s [] (record {
        proxy = register a.client_id a.stream_id (new_relay a.stream_id) s.proxy;
        attempts = xs ++ ys;
      })
  removes :
      (client_id stream_id : ℕ) (s : System)
      → Step py net s [] (record s { proxy = (remove_relay client_id stream_id s.proxy).1 })

-- Any steps, with all the addresses that are opened.
pub data Steps (py : Library) (net : Resolver) : System → List Text → System → Type 0 where
  here : (s : System) → Steps py net s [] s
  step :
      (s s' s'' : System) (ips more : List Text)
      → Step py net s ips s'
      → Steps py net s' more s''
      → Steps py net s (ips ++ more) s''
