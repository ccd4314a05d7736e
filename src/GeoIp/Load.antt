-- ===== src/GeoIp/Load.antt =====
-- `load_china_ip_list` of client/core/geoip.py: what the loaded file adds.
use vpnself.Prelude.{ℕ, ◌≡◌, true, ◌||◌, some, List, [], All, length, Text, is_some}
use vpnself.Net.{Library}
use vpnself.GeoIp.{
  China, ListFile, missing, unreadable, undecodable, lines, rebuild, is_china_ip, new_cidrs,
}
use vpnself.GeoIp.Lookup.{covered}

module _ (py : Library) where
  -- The lookup set is the one that the range list gives.
  abbrev pub IsLoaded : China → Type 0
  IsLoaded g = rebuild py g.ranges ≡ some g.set

  abbrev pub file_cidrs : ListFile → List Text
  file_cidrs missing = []
  file_cidrs unreadable = []
  file_cidrs undecodable = []
  file_cidrs (lines ls) = new_cidrs py ls

  -- Every text parses.
  abbrev AllParse : List Text → Type 0
  AllParse = All (λ c. is_some (py.ip_network c) ≡ true)

  -- What a call of `load_china_ip_list` leaves: it counts the CIDRs of the file, the globals agree,
  -- and an address is Chinese if it was before or a CIDR of the file covers it.
  abbrev pub Loads : China → List Text → ℕ × China → Type 0
  Loads g cs (n, g') =
      (n ≡ length cs)
      × IsLoaded g'
      × ((ip_str : Text)
          → is_china_ip py g' ip_str ≡ (is_china_ip py g ip_str || covered py cs ip_str))
