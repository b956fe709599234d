-- ===== src/Common/Config/Reads.antt =====
-- Reads of the maps of servers/common/src/ConfigMgr.cpp.
use quick_chat.Prelude.Assoc.{lookup, lookup-insert}
use quick_chat.Prelude.{◌≡◌, arith, Bytes, bytes_key, bytes_eq_iff, Option-cases}
use quick_chat.Common.Config.{SectionInfo, ConfigMap, or_empty, section_index, config_index}

section_index_keeps :
    (key j : Bytes) (m : SectionInfo)
    → or_empty (lookup j (section_index key m).1) ≡ or_empty (lookup j m)
unfolding section_index
section_index_keeps key j m = ground (
  arith,
  lookup-insert key j (or_empty (lookup key m)) m,
  bytes_eq_iff key j,
  Option-cases (lookup key m),
)

-- A read of the configuration changes no later read: what any key of any section reads as is the
-- same before and after.
pub config_index_keeps :
    (section key section' key' : Bytes) (cfg : ConfigMap)
    → (config_index section' key' (config_index section key cfg).1).0
      ≡ (config_index section' key' cfg).0
unfolding config_index section_index
config_index_keeps section key section' key' cfg =
    let m : SectionInfo = or_empty (lookup section cfg) in
    ground (
      arith,
      lookup-insert section section' (section_index key m).1 cfg,
      bytes_eq_iff section section',
      section_index_keeps key key' m,
    )
