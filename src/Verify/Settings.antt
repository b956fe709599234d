-- ===== src/Verify/Settings.antt =====
-- What `serve` of servers/VerifyServer/verify_server.py reads of common.ini by Python's
-- configparser: the names of sections as they are written, those of options in lower case, the
-- section DEFAULT behind every other. The values hold no `%`, which configparser would expand, and
-- no section or option is there twice, which it refuses.
use quick_chat.Prelude.{
  ℕ, ◌+◌, leb, ◌&&◌, List, [], ◌∷◌, Option, none, some, Bytes, bytes_eq, codes, if◌then◌else◌,
}
use quick_chat.Common.Config.Load.{IniFile}

lower_char : ℕ → ℕ
lower_char c = if leb b'A' c && leb c b'Z' then c + 32 else c

-- `optionxform`, on ASCII.
pub lower : Bytes → Bytes
unfolding lower_char
lower [] = []
lower (c ∷ s) = lower_char c ∷ lower s

-- An option of one section.
pub option_of : Bytes → List (Bytes × Bytes) → Option Bytes
unfolding lower
option_of option [] = none
option_of option ((key, value) ∷ tree) =
    let rest = option_of option tree in
    if bytes_eq (lower key) (lower option) then some value else rest

unfoldable pub section_of : Bytes → IniFile → Option (List (Bytes × Bytes))
section_of section [] = none
section_of section ((name, tree) ∷ ini) =
    let rest = section_of section ini in if bytes_eq name section then some tree else rest

in_section : Bytes → Option (List (Bytes × Bytes)) → Option Bytes
unfolding option_of
in_section option none = none
in_section option (some tree) = option_of option tree

or_else : Option Bytes → Option Bytes → Option Bytes
or_else none v = v
or_else (some v) w = some v

-- An option of a section that may be missing, with the section DEFAULT behind it.
unfoldable pub found_option : Bytes → IniFile → Option (List (Bytes × Bytes)) → Option Bytes
unfolding section_of in_section or_else
found_option option ini none = none
found_option option ini (some tree) =
    or_else (option_of option tree) (in_section option (section_of (codes "DEFAULT") ini))

-- `config.get(section, option)`: none where it raises for a missing section or option.
unfoldable pub config_get : Bytes → Bytes → IniFile → Option Bytes
config_get section option ini = found_option option ini (section_of section ini)

abbrev pub or_fallback : Bytes → Option Bytes → Bytes
or_fallback fallback none = fallback
or_fallback fallback (some v) = v

-- `VERIFY_PREFIX`: the section is spelt in lower case.
unfoldable pub verify_prefix : IniFile → Bytes
unfolding config_get
verify_prefix ini =
    or_fallback (codes "verify:") (config_get (codes "redis") (codes "verify_prefix") ini)

pub redis_host : IniFile → Bytes
unfolding config_get
redis_host ini = or_fallback (codes "localhost") (config_get (codes "Redis") (codes "Host") ini)

pub redis_port : IniFile → Bytes
unfolding config_get
redis_port ini = or_fallback (codes "6379") (config_get (codes "Redis") (codes "Port") ini)
