-- ===== src/GeoIp.antt =====
-- client/core/geoip.py: sets of addresses as sorted, merged intervals, searched by `bisect`.
pub mod Merge
pub mod Search
pub mod Lookup
pub mod Load
mod Tests
use vpnself.Prelude.{
  ℕ, zero, suc, ◌+◌, ◌-◌, ◌/◌, Bool, true, false, ◌&&◌, ◌||◌, Option, none, some, List, [], ◌∷◌,
  ◌++◌, if◌then◌else◌, ltb, leb, ◌==◌, length, Text, is_some, get_or,
}
use vpnself.Prelude.Sort.{sort_by}
use vpnself.Net.{Library, Network, int_of}
use mathlib.Core.List.{reverse, foldl}

abbrev pub Interval : Type 0
Interval = ℕ × ℕ

-- `class _IntervalSet`
pub record IntervalSet : Type 0 where
  pub starts : List ℕ
  pub ends : List ℕ

-- The order of tuples of integers.
abbrev pub tuple_lt : Interval → Interval → Bool
tuple_lt (s, e) (s', e') = ltb s s' || (s == s' && ltb e e')

-- One round of the loop in `rebuild`. The two lists are kept last element first while they grow.
unfoldable pub merge_step : List ℕ × List ℕ → Interval → List ℕ × List ℕ
merge_step (starts, []) (s, e) = (s ∷ starts, e ∷ [])
merge_step (starts, last ∷ ends) (s, e) =
    if leb s (last + 1)
    then (if ltb last e then (starts, e ∷ ends) else (starts, last ∷ ends))
    else (s ∷ starts, e ∷ last ∷ ends)

-- `rebuild` behind the parsing: sort, merge, assign.
unfoldable pub rebuild_intervals : List Interval → IntervalSet
rebuild_intervals intervals =
    let (starts, ends) = foldl merge_step ([], []) (sort_by tuple_lt intervals) in
    record { starts = reverse starts; ends = reverse ends }

-- `bisect.bisect_right` of the standard library. Each round halves `hi - lo`; the fuel is the length
-- of the list, which is more than enough.
unfoldable pub bisect_from : ℕ → List ℕ → ℕ → ℕ → ℕ → ℕ
bisect_from zero xs x lo hi = lo
bisect_from (suc fuel) xs x lo hi =
    let mid = (lo + hi) / 2 in
    let left = bisect_from fuel xs x lo mid in
    let right = bisect_from fuel xs x (mid + 1) hi in
    if ltb lo hi then (if ltb x (get_or xs mid 0) then left else right) else lo

unfoldable pub bisect_right : List ℕ → ℕ → ℕ
bisect_right xs x = bisect_from (length xs) xs x 0 (length xs)

-- `contains` behind the parsing: `i = bisect_right(...) - 1; i >= 0 and ip <= self._ends[i]`.
unfoldable pub contains_int : IntervalSet → ℕ → Bool
contains_int set ip =
    let r = bisect_right set.starts ip in
    if r == 0 then false else leb ip (get_or set.ends (r - 1) 0)

-- The module's globals CHINA_IP_RANGES and _CHINA_SET.
pub record China : Type 0 where
  pub ranges : List Text
  pub set : IntervalSet

-- The file that `load_china_ip_list` is given: not there, failing with OSError, with bytes that are
-- no UTF-8, where reading raises UnicodeDecodeError, or its lines.
pub data ListFile : Type 0 where
  missing unreadable undecodable : ListFile
  lines : List Text → ListFile

module _ (py : Library) where
  -- The first loop of `rebuild`; `none` is the ValueError of a text that is no network.
  unfoldable pub parse_cidrs : List Text → Option (List Interval)
  parse_cidrs [] = some []
  parse_cidrs (c ∷ cs) = elim (py.ip_network c) [
    | none ↦ none
    | some n ↦ elim (parse_cidrs cs) [ none ↦ none | some is ↦ some ((n.first, n.last) ∷ is) ]
  ]

  unfoldable pub rebuild : List Text → Option IntervalSet
  rebuild cidrs = elim (parse_cidrs cidrs) [ none ↦ none | some is ↦ some (rebuild_intervals is) ]

  unfoldable pub contains : IntervalSet → Text → Bool
  contains set ip_str = elim (py.ip_address ip_str) [
    | none ↦ false
    | some a ↦ contains_int set (int_of a)
  ]

  unfoldable pub is_china_ip : China → Text → Bool
  is_china_ip g ip_str = contains g.set ip_str

  abbrev keep_line : Text → List Text → List Text
  keep_line [] rest = rest
  keep_line (c ∷ cs) rest =
      if c == b'#' then rest else if is_some (py.ip_network (c ∷ cs)) then (c ∷ cs) ∷ rest else rest

  -- The lines of the file that are used: not empty, no comment, and a network.
  unfoldable pub new_cidrs : List Text → List Text
  new_cidrs [] = []
  new_cidrs (line ∷ rest) = keep_line (py.strip line) (new_cidrs rest)

  add_cidrs : China → List Text → Option (ℕ × China)
  add_cidrs g [] = some (0, g)
  add_cidrs g (c ∷ cs) =
      let new_ranges = g.ranges ++ (c ∷ cs) in
      elim (rebuild new_ranges) [
        | none ↦ none
        | some set ↦ some (length (c ∷ cs), record { ranges = new_ranges; set = set })
      ]

  -- `load_china_ip_list`, with the count that it returns; `none` is a ValueError, which the `except
  -- OSError` lets through. UnicodeDecodeError is one.
  unfoldable pub load_china_ip_list : China → ListFile → Option (ℕ × China)
  unfolding add_cidrs
  load_china_ip_list g missing = some (0, g)
  load_china_ip_list g unreadable = some (0, g)
  load_china_ip_list g undecodable = none
  load_china_ip_list g (lines ls) = add_cidrs g (new_cidrs ls)
