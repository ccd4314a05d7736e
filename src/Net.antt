-- ===== src/Net.antt =====
-- What the program uses of Python's library on addresses and texts (`ipaddress`, `str`), as an
-- interface, and the helpers of common/utils.py over it.
pub mod Sample
use vpnself.Prelude.{
  ℕ, ◌≤◌, ◌≡◌, Bool, true, false, ◌&&◌, Option, none, some, if◌then◌else◌, leb, Text, is_some,
}

-- `ipaddress.ip_address`: an address of either version, as its integer.
pub data Address : Type 0 where
  v4 : ℕ → Address
  v6 : ℕ → Address

-- `int(address)`
abbrev pub int_of : Address → ℕ
int_of (v4 n) = n
int_of (v6 n) = n

-- `ipaddress.ip_network`: its version, its network address and its broadcast address.
pub record Network : Type 0 where
  pub is_v4 : Bool
  pub first : ℕ
  pub last : ℕ

-- The parsers return none where Python raises ValueError. The last address of a network is not
-- below its first.
pub record Library : Type 0 where
  pub ip_address : Text → Option Address
  pub ip_network : Text → Option Network
  pub lower : Text → Text
  pub strip : Text → Text
  pub network_ordered : (t : Text) (n : Network) → ip_network t ≡ some n → n.first ≤ n.last

abbrev pub in_range : ℕ → Network → Bool
in_range a n = leb n.first a && leb a n.last

-- `address in network`: never across versions.
abbrev pub in_network : Address → Network → Bool
in_network (v4 a) n = if n.is_v4 then in_range a n else false
in_network (v6 a) n = if n.is_v4 then false else in_range a n

module _ (py : Library) where
  unfoldable pub is_ip_address : Text → Bool
  is_ip_address host = is_some (py.ip_address host)

  unfoldable pub ip_in_network : Text → Text → Bool
  ip_in_network ip_str network_str = elim (py.ip_address ip_str) [
    | none ↦ false
    | some a ↦ elim (py.ip_network network_str) [ none ↦ false | some n ↦ in_network a n ]
  ]
