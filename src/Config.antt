-- ===== src/Config.antt =====
-- sunbeam-python/sunbeam/core/common.py, `read_config`, `update_config` and `delete_config`: the table
-- of configuration items that clusterd keeps. The code stores an item as JSON text, which is read back
-- as the dictionary that was written.
use snap_openstack.Prelude.{String, none, some, Outcome, return, raise, not_found}
use snap_openstack.Dict.{Dict, get, set}
use snap_openstack.Value.{Fields, end}

abbrev pub Store : Type 0
Store = Dict Fields

unfoldable pub read_config : String → Store → Outcome Fields
read_config key store = elim (get key store) [
  | none ↦ raise not_found
  | some config ↦ return config
]

-- The item is created if it is missing.
unfoldable pub update_config : String → Fields → Store → Store
update_config key config store = set key config store

-- sunbeam-python/sunbeam/core/questions.py, `load_answers`: no answers where there is no item.
unfoldable pub load_answers : String → Store → Outcome Fields
unfolding read_config
load_answers key store = elim (read_config key store) [
  | return answers ↦ return answers
  | raise not_found ↦ return end
  | raise e ↦ raise e
]

-- `write_answers` of the same file.
unfoldable pub write_answers : String → Fields → Store → Store
unfolding update_config
write_answers key answers store = update_config key answers store
