-- ===== src/Common/Config.antt =====
-- servers/common/src/ConfigMgr.cpp. `read_ini` gives the sections of common.ini with their keys and
-- values, each in the order of the file.
pub mod Reads
pub mod Load
use quick_chat.Prelude.Assoc.{lookup, insert}
use quick_chat.Prelude.{List, [], ◌∷◌, Option, none, some, ◌≡◌, Bytes, bytes_key}

-- `SectionInfo`
abbrev pub SectionInfo : Type 0
SectionInfo = List (Bytes × Bytes)

-- `config_map_`
abbrev pub ConfigMap : Type 0
ConfigMap = List (Bytes × SectionInfo)

-- The inner loop of the constructor.
section_config : List (Bytes × Bytes) → SectionInfo → SectionInfo
section_config [] m = m
section_config ((key, value) ∷ tree) m = section_config tree (insert key value m)

-- The outer loop.
load_sections : List (Bytes × List (Bytes × Bytes)) → ConfigMap → ConfigMap
unfolding section_config
load_sections [] m = m
load_sections ((name, tree) ∷ pt) m = load_sections pt (insert name (section_config tree []) m)

-- `ConfigMgr::ConfigMgr`
unfoldable pub make_config : List (Bytes × List (Bytes × Bytes)) → ConfigMap
unfolding load_sections
make_config pt = load_sections pt []

-- `operator[]` of an `unordered_map`: a missing key is put in with an empty value.
abbrev pub or_empty {ℓ} : {A : Type ℓ} → Option (List A) → List A
or_empty none = []
or_empty (some xs) = xs

-- `SectionInfo::operator[]`
pub section_index : Bytes → SectionInfo → Bytes × SectionInfo
section_index key m = let v : Bytes = or_empty (lookup key m) in (v, insert key v m)

-- `cfg[section][key]`, by `ConfigMgr::operator[]` and `SectionInfo::operator[]`.
unfoldable pub config_index : Bytes → Bytes → ConfigMap → Bytes × ConfigMap
unfolding section_index
config_index section key cfg =
    let r = section_index key (or_empty (lookup section cfg)) in (r.0, insert section r.1 cfg)
