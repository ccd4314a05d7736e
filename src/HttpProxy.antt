-- ===== src/HttpProxy.antt =====
-- client/core/http_proxy.py: the HTTP proxy in front of the router. Texts are lists of code points, and
-- bytes that are compared with them are ASCII.
pub mod Targets
pub mod Relaying
mod Tests
use vpnself.Prelude.{
  ℕ, ◌+◌, ◌*◌, ◌==◌, ◌≡◌, Bool, true, false, not, ◌&&◌, ◌||◌, Option, none, some, List, [], ◌∷◌,
  ◌++◌, if◌then◌else◌, ◌>>=◌, leb, length, Text, text_beq, codes, text_eq, ℤ, pos, negsuc,
}

-- What the proxy uses of Python's texts: `int`, `str.split`, `str.strip` and `str.upper`.
pub record TextLibrary : Type 0 where
  pub int : Text → Option ℤ
  pub split : Text → List Text
  pub strip : Text → Text
  pub upper : Text → Text

-- `text.rsplit(c, 1)` where c is in the text, and none where it is not.
abbrev before : ℕ → Option (Text × Text) → Option (Text × Text)
before x none = none
before x (some (front, back)) = some (x ∷ front, back)

unfoldable pub rsplit : ℕ → Text → Option (Text × Text)
rsplit c [] = none
rsplit c (x ∷ xs) =
    let later = rsplit c xs in
    elim later [
      | none ↦ if x == c then some ([], xs) else none
      | some (front, back) ↦ some (x ∷ front, back)
    ]

-- `text.split(c, 1)` where c is in the text, and none where it is not.
unfoldable pub split_once : ℕ → Text → Option (Text × Text)
split_once c [] = none
split_once c (x ∷ xs) =
    let later = split_once c xs in if x == c then some ([], xs) else before x later

-- The text behind a prefix, and none where the text does not start with it.
abbrev pub without_prefix : Text → Text → Option Text
without_prefix [] text = some text
without_prefix (p ∷ ps) [] = none
without_prefix (p ∷ ps) (x ∷ xs) = if x == p then without_prefix ps xs else none

-- `target.split("://", 1)[1]`, and none where "://" is not in the target.
unfoldable pub after_scheme : Text → Option Text
after_scheme [] = none
after_scheme (x ∷ xs) =
    let later = after_scheme xs in
    elim (without_prefix (codes "://") (x ∷ xs)) [ some rest ↦ some rest | none ↦ later ]

abbrev pub or_default : Option ℤ → ℕ → ℤ
or_default none default = pos default
or_default (some port) default = port

-- `not host or not (1 <= port <= 65535)`, turned round: what is left of a target that passes.
abbrev pub checked : Text → ℤ → Option (Text × ℕ)
checked [] port = none
checked (c ∷ cs) (negsuc n) = none
checked (c ∷ cs) (pos n) = if leb 1 n && leb n 65535 then some (c ∷ cs, n) else none

-- What the proxy writes to the client itself.
pub data Reply : Type 0 where
  bad_request bad_gateway established : Reply

-- A header line is the end of the headers where it is blank.
pub record Request : Type 0 where
  pub method : Text
  pub target : Text
  pub headers : List Text

-- How a request goes on: a reply and nothing else, or a reply or a text for the target and the relay.
pub data Handled : Type 0 where
  replies : Reply → Handled
  relays_connect : Handled
  relays_http : Text → Handled
  aborted : Handled

-- `"".join(headers)`
abbrev pub join : List Text → Text
join [] = []
join (h ∷ hs) = h ++ join hs

module _ (py : TextLibrary) where
  -- The host and the port of a text, where the port may be left out.
  abbrev pub host_port : Text → ℕ → Text × ℤ
  host_port text default = elim (rsplit b':' text) [
    | none ↦ (text, pos default)
    | some (host, port) ↦ (host, or_default (py.int port) default)
  ]

  -- The target of `_handle_connect`; none is a 400.
  unfoldable pub connect_target : Text → Option (Text × ℕ)
  connect_target target = let (host, port) = host_port target 443 in checked host port

  -- The host part and the path of `_handle_http_get`.
  abbrev pub host_path : Text → Text × Text
  host_path rest = elim (split_once b'/' rest) [
    | none ↦ (rest, b'/' ∷ [])
    | some (hostpart, path) ↦ (hostpart, b'/' ∷ path)
  ]

  -- The host, the port and the path of `_handle_http_get`; none is a 400.
  unfoldable pub http_target : Text → Option ((Text × ℕ) × Text)
  http_target target = do
    rest ← after_scheme target
    let (hostpart, path) = host_path rest
    let (host, port) = host_port hostpart 80
    hp ← checked host port
    some (hp, path)

  -- The headers up to the blank line, as the loop reads them.
  abbrev pub read_headers : List Text → List Text
  read_headers [] = []
  read_headers (h ∷ hs) =
      let rest = read_headers hs in if text_beq (py.strip h) [] then h ∷ [] else h ∷ rest

  -- `"%s %s HTTP/1.1\r\n" % (method, path)`
  abbrev pub request_line : Text → Text → Text
  request_line method path = method ++ (codes " " ++ (path ++ codes " HTTP/1.1\r\n"))

  -- `_handle_connect` behind the parsing: `routed` says whether `route` gives a connection, and `ok`
  -- whether the write to the client succeeds.
  abbrev pub after_connect : Option (Text × ℕ) → Bool → Bool → Handled
  after_connect none routed ok = replies bad_request
  after_connect (some hp) routed ok =
      if routed then (if ok then relays_connect else aborted) else replies bad_gateway

  -- `_handle_http_get` behind the parsing; `ok` is for the write to the target.
  abbrev pub after_http : Option ((Text × ℕ) × Text) → Request → Bool → Bool → Handled
  after_http none q routed ok = replies bad_request
  after_http (some (hp, path)) q routed ok =
      if routed
      then (if ok
          then relays_http (join (request_line q.method path ∷ read_headers q.headers))
          else aborted)
      else replies bad_gateway

  -- The parts of the first line; none where there are fewer than two.
  abbrev pub first_parts : List Text → List Text → Option Request
  first_parts [] headers = none
  first_parts (m ∷ []) headers = none
  first_parts (m ∷ t ∷ rest) headers =
      some (record { method = py.upper m; target = t; headers = headers })

  abbrev pub parse_request : Text → List Text → Option Request
  parse_request line headers = first_parts (py.split (py.strip line)) headers

  -- The target that the router is asked for.
  abbrev pub target_of : Request → Option (Text × ℕ)
  target_of q =
      if text_beq q.method (codes "CONNECT")
      then connect_target q.target
      else (elim (http_target q.target) [ none ↦ none | some (hp, path) ↦ some hp ])

  abbrev pub handle_request : Option Request → Bool → Bool → Handled
  handle_request none routed ok = replies bad_request
  handle_request (some q) routed ok =
      if text_beq q.method (codes "CONNECT")
      then after_connect (connect_target q.target) routed ok
      else after_http (http_target q.target) q routed ok

  -- `_handle` on a first line that is not empty and the lines behind it.
  unfoldable pub handle : Text → List Text → Bool → Bool → Handled
  handle line headers routed ok = handle_request (parse_request line headers) routed ok

-- A read of `_relay`: bytes, none of them at the end, or an error.
pub data Read : Type 0 where
  bytes : List ℕ → Read
  error : Read

-- `r` in `_relay`, on what the reads return; `ok` says which drains succeed. What is written to the
-- other side, and the total.
unfoldable pub relay : (ℕ → Bool) → ℕ → List Read → List (List ℕ) × ℕ
relay ok i [] = ([], 0)
relay ok i (error ∷ rs) = ([], 0)
relay ok i (bytes [] ∷ rs) = ([], 0)
relay ok i (bytes (b ∷ bs) ∷ rs) =
    let (more, total) = relay ok (i + 1) rs in
    if ok i then ((b ∷ bs) ∷ more, length (b ∷ bs) + total) else ((b ∷ bs) ∷ [], 0)
