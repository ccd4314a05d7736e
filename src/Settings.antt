-- ===== src/Settings.antt =====
-- client/config/settings.py. A settings file is a dict of JSON values; `json` itself, and the directory of
-- the file, are not modelled, and DEFAULT_CONFIG is an argument. The file, its `.tmp` and its `.bak` are
-- the file system.
pub mod Merging
pub mod Saving
mod Tests
use vpnself.Prelude.{
  ℕ, Bool, true, false, Option, none, some, List, [], ◌∷◌, ◌++◌, Text, text_eq, text_beq, codes,
  if◌then◌else◌,
}
use vpnself.Prelude.Dict.{Dict, get, put}

-- What a file holds: an object, a JSON text that is no object, or something that cannot be read, such as
-- a text that is cut off.
pub data Content (V : Type 0) : Type 0 where
  object : Dict Text V → Content V
  no_object : Content V
  unreadable : Content V

pub record Files (V : Type 0) : Type 0 where
  pub config : Option (Content V)
  pub tmp : Option (Content V)
  pub bak : Option (Content V)

-- `{**DEFAULT_CONFIG, **cfg}`
abbrev pub merge {ℓ} : {V : Type ℓ} → Dict Text V → Dict Text V → Dict Text V
merge defaults [] = defaults
merge defaults ((key, value) ∷ cfg) = merge (put key value defaults) cfg

-- How far a write gets: an OSError at the opening, in the middle or at the rename, or the end.
pub data Write : Type 0 where
  not_opened cut_off not_renamed complete : Write

module _ {V : Type 0} where
  -- `_atomic_write_json`: whether it returns, and the files. A crash leaves the files of one of the
  -- other cases.
  unfoldable pub atomic_write_json : Write → Dict Text V → Files V → Bool × Files V
  atomic_write_json not_opened cfg fs = (false, fs)
  atomic_write_json cut_off cfg fs = (false, record fs { tmp = some unreadable })
  atomic_write_json not_renamed cfg fs = (false, record fs { tmp = some (object cfg) })
  atomic_write_json complete cfg fs = (true, record fs { config = some (object cfg); tmp = none })

  -- `save_config` of the client.
  unfoldable pub save_config : Write → Dict Text V → Files V → Bool × Files V
  save_config write cfg fs = atomic_write_json write cfg fs

  -- `p.replace(p.with_name(p.name + ".bak"))`, which may fail.
  abbrev pub back_up : Bool → Files V → Files V
  back_up true fs = record fs { config = none; bak = fs.config }
  back_up false fs = fs

  -- The end of `load_config` of the client: the defaults are written and returned.
  abbrev pub regenerate : Write → Dict Text V → Files V → Dict Text V × Files V
  regenerate write defaults fs = (defaults, (atomic_write_json write defaults fs).1)

  abbrev pub load_content :
      Bool → Write → Dict Text V → Option (Content V) → Files V → Dict Text V × Files V
  load_content movable write defaults none fs = regenerate write defaults fs
  load_content movable write defaults (some (object cfg)) fs = (merge defaults cfg, fs)
  load_content movable write defaults (some no_object) fs =
      regenerate write defaults (back_up movable fs)
  load_content movable write defaults (some unreadable) fs =
      regenerate write defaults (back_up movable fs)

  -- `load_config` of the client.
  unfoldable pub load_config : Bool → Write → Dict Text V → Files V → Dict Text V × Files V
  load_config movable write defaults fs = load_content movable write defaults fs.config fs
