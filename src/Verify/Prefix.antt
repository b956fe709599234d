-- ===== src/Verify/Prefix.antt =====
-- The prefix of the keys of the verification codes, in the gate server and in the verification
-- server.
use quick_chat.Prelude.{
  List, [], ◌∷◌, ◌++◌, none, ◌≡◌, ◌≢◌, ◌↔◌, refl, ap, arith, Bytes, bytes_eq_iff, codes, All,
}
use quick_chat.Common.Config.{make_config, config_index}
use quick_chat.Common.Config.Load.{IniFile, config_index-make_config}
use quick_chat.Verify.Settings.{section_of, found_option, config_get, or_fallback, verify_prefix}

section_of_missing :
    (section : Bytes) (ini : IniFile) → All (λ s. s.0 ≢ section) ini → section_of section ini ≡ none
unfolding section_of
section_of_missing section [] h = refl
section_of_missing section ((name, tree) ∷ ini) (h, hs) =
    ground (arith, section_of_missing section ini hs, bytes_eq_iff name section)

-- A file without a section `redis` in lower case gives the verification server its own prefix,
-- whatever the file says.
verify_prefix_fixed :
    (ini : IniFile) → All (λ s. s.0 ≢ codes "redis") ini → verify_prefix ini ≡ codes "verify:"
unfolding verify_prefix config_get found_option
verify_prefix_fixed ini h =
    ap (λ tree. or_fallback (codes "verify:") (found_option (codes "verify_prefix") ini tree))
      (section_of_missing (codes "redis") ini h)

-- From a file for both servers, with `v` as the last entry `verify_prefix` of its last section
-- `Redis` and with no section `redis` in lower case, the gate server reads the prefix of the codes that it looks for,
-- and the verification server the prefix of those that it stores: they are the same exactly where
-- `v` is "verify:".
pub prefixes_agree :
    (v : Bytes) (before after : IniFile) (tree tree' : List (Bytes × Bytes))
    → All (λ s. s.0 ≢ codes "Redis") after
    → All (λ kv. kv.0 ≢ codes "verify_prefix") tree'
    → All
        (λ s. s.0 ≢ codes "redis")
        (before ++ (codes "Redis", tree ++ (codes "verify_prefix", v) ∷ tree') ∷ after)
    → ((config_index (codes "Redis") (codes "verify_prefix") (
          make_config
            (before ++ (codes "Redis", tree ++ (codes "verify_prefix", v) ∷ tree') ∷ after))).0
        ≡ verify_prefix
            (before ++ (codes "Redis", tree ++ (codes "verify_prefix", v) ∷ tree') ∷ after))
      ↔ (v ≡ codes "verify:")
prefixes_agree v before after tree tree' last_section last_key lower_case =
    let ini : IniFile =
      before ++ (codes "Redis", tree ++ (codes "verify_prefix", v) ∷ tree') ∷ after in
    let gate =
      (config_index-make_config (codes "Redis") (codes "verify_prefix") v before after tree tree'
        last_section last_key).0 in
    let service = verify_prefix_fixed ini lower_case in (λ h. cc, λ h. cc)
