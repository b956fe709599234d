-- ===== src/Common/Config/Load.antt =====
-- What the maps hold once the constructor of servers/common/src/ConfigMgr.cpp has read the file.
use quick_chat.Prelude.Assoc.{lookup, insert, lookup-insert}
use quick_chat.Prelude.{
  List, [], ◌∷◌, ◌++◌, some, ◌≡◌, ◌≢◌, refl, ◌∙◌, arith, Bytes, bytes_key, bytes_eq_iff, All,
}
use quick_chat.Common.Config.{
  SectionInfo, ConfigMap, section_config, load_sections, make_config, section_index, config_index,
}

-- The sections of a file, with their keys and values, in the order of the file.
abbrev pub IniFile : Type 0
IniFile = List (Bytes × List (Bytes × Bytes))

module _ (key : Bytes) where
  section_config-keeps :
      (tree : List (Bytes × Bytes)) (m : SectionInfo)
      → All (λ kv. kv.0 ≢ key) tree
      → lookup key (section_config tree m) ≡ lookup key m
  unfolding section_config
  section_config-keeps [] m h = refl
  section_config-keeps ((k, v) ∷ tree) m (h, hs) =
      section_config-keeps tree (insert k v m) hs
      ∙ ground (arith, lookup-insert k key v m, bytes_eq_iff k key)

  section_config_last :
      (before after : List (Bytes × Bytes)) (v : Bytes) (m : SectionInfo)
      → All (λ kv. kv.0 ≢ key) after
      → lookup key (section_config (before ++ (key, v) ∷ after) m) ≡ some v
  unfolding section_config
  section_config_last [] after v m h =
      section_config-keeps after (insert key v m) h
      ∙ ground (arith, lookup-insert key key v m, bytes_eq_iff key key)
  section_config_last ((k, w) ∷ before) after v m h =
      section_config_last before after v (insert k w m) h

module _ (section : Bytes) where
  load_sections-keeps :
      (pt : IniFile) (m : ConfigMap)
      → All (λ s. s.0 ≢ section) pt
      → lookup section (load_sections pt m) ≡ lookup section m
  unfolding load_sections
  load_sections-keeps [] m h = refl
  load_sections-keeps ((k, tree) ∷ pt) m (h, hs) =
      load_sections-keeps pt (insert k (section_config tree []) m) hs
      ∙ ground (arith, lookup-insert k section (section_config tree []) m, bytes_eq_iff k section)

  load_sections_last :
      (before after : IniFile) (tree : List (Bytes × Bytes)) (m : ConfigMap)
      → All (λ s. s.0 ≢ section) after
      → lookup section (load_sections (before ++ (section, tree) ∷ after) m)
        ≡ some (section_config tree [])
  unfolding load_sections
  load_sections_last [] after tree m h =
      load_sections-keeps after (insert section (section_config tree []) m) h
      ∙ ground (
        arith,
        lookup-insert section section (section_config tree []) m,
        bytes_eq_iff section section,
      )
  load_sections_last ((k, t) ∷ before) after tree m h =
      load_sections_last before after tree (insert k (section_config t []) m) h

-- A value of the file is what its section and key read as, and what is not in the file reads as
-- the empty text: the last entry of the key counts, in the last section of the name.
pub config_index-make_config :
    (section key v : Bytes) (before after : IniFile) (tree tree' : List (Bytes × Bytes))
    → All (λ s. s.0 ≢ section) after
    → All (λ kv. kv.0 ≢ key) tree'
    → ((config_index section key
          (make_config (before ++ (section, tree ++ (key, v) ∷ tree') ∷ after))).0
        ≡ v)
      × ((config_index section key (make_config (before ++ (section, tree') ∷ after))).0 ≡ [])
      × ((config_index section key (make_config after)).0 ≡ [])
unfolding config_index section_index make_config lookup
config_index-make_config section key v before after tree tree' hs hk =
    let found = load_sections_last section before after (tree ++ (key, v) ∷ tree') [] hs in
    let last = section_config_last key tree tree' v [] hk in
    let bare = load_sections_last section before after tree' [] hs in
    let missing = section_config-keeps key tree' [] hk in
    let no_section = load_sections-keeps section after [] hs in
    (rw found (rw last refl), rw bare (rw missing refl), rw no_section refl)
