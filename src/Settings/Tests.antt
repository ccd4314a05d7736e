-- ===== src/Settings/Tests.antt =====
-- The theorem about the settings at a concrete file.
use vpnself.Prelude.{ℕ, ◌≡◌, refl, true, none, some, [], ◌∷◌, Text, codes, text_eq}
use vpnself.Prelude.Dict.{Dict, get}
use vpnself.Settings.{
  Files, unreadable, cut_off, complete, save_config, load_config, atomic_write_json, object,
}
use vpnself.Settings.Saving.{load_config-save_config}

abbrev defaults : Dict Text ℕ
defaults = (codes "server_port", 8443) ∷ (codes "pool_size", 128) ∷ []

abbrev edited : Dict Text ℕ
edited = (codes "pool_size", 16) ∷ []

abbrev broken : Files ℕ
broken = record { config = some unreadable; tmp = none; bak = none }

load_config-save_config_example :
    get
      (codes "pool_size")
      (load_config true complete defaults (save_config complete edited broken).1).0
    ≡ some 16
unfolding save_config atomic_write_json
load_config-save_config_example =
    load_config-save_config complete complete true defaults edited broken (codes "pool_size")
      (refl, tt)

-- A save that is cut off.
abbrev stored : Files ℕ
stored = record { config = some (object edited); tmp = none; bak = none }

cut_off_save :
    get (codes "pool_size") (load_config true complete defaults (save_config cut_off [] stored).1).0
    ≡ some 16
unfolding save_config atomic_write_json load_config
cut_off_save = refl
