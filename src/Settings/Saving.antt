-- ===== src/Settings/Saving.antt =====
-- What a save of client/config/settings.py leaves, also where it is cut off, and what the next load makes
-- of it.
use vpnself.Prelude.{◌≡◌, refl, ap, Bool, Option, none, some, Text, text_eq, if◌then◌else◌}
use vpnself.Prelude.Dict.{Dict, get, IsUnique}
use vpnself.Settings.{
  Content, object, no_object, unreadable, Files, Write, not_opened, cut_off, not_renamed, complete,
  atomic_write_json, save_config, load_config, load_content,
}
use vpnself.Settings.Merging.{or_value, get-merge}

-- `load_config` reads the settings file only.
load_content-config :
    {V : Type 0} (movable : Bool) (write : Write) (defaults : Dict Text V) (o : Option (Content V))
    (fs fs' : Files V)
    → (load_content movable write defaults o fs).0 ≡ (load_content movable write defaults o fs').0
load_content-config movable write defaults none fs fs' = refl
load_content-config movable write defaults (some (object cfg)) fs fs' = refl
load_content-config movable write defaults (some no_object) fs fs' = refl
load_content-config movable write defaults (some unreadable) fs fs' = refl

-- A save writes the settings as a whole or not at all, wherever an error or a crash cuts it off: after
-- a save that returns, the next load gives every setting that was saved, and the default for a setting
-- that was not; after any other one it gives what it would have given before.
pub load_config-save_config :
    {V : Type 0} (write read_write : Write) (movable : Bool) (defaults cfg : Dict Text V)
    (fs : Files V) (key : Text)
    → IsUnique cfg
    → let (saved, fs') = save_config write cfg fs in
      get key (load_config movable read_write defaults fs').0 ≡ (
        if saved
        then or_value (get key cfg) (get key defaults)
        else get key (load_config movable read_write defaults fs).0)
unfolding save_config atomic_write_json load_config
load_config-save_config not_opened read_write movable defaults cfg fs key u = refl
load_config-save_config cut_off read_write movable defaults cfg fs key u = ap (get key) (
    load_content-config movable read_write defaults fs.config (record fs { tmp = some unreadable })
      fs)
load_config-save_config not_renamed read_write movable defaults cfg fs key u = ap (get key) (
    load_content-config movable read_write defaults fs.config
      (record fs { tmp = some (object cfg) }) fs)
load_config-save_config complete read_write movable defaults cfg fs key u =
    get-merge key defaults cfg u
