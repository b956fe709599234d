-- ===== src/Gate/Logic/Fields.antt =====
-- The fields that a request holds.
use quick_chat.Prelude.{some, ◌≡◌, Bytes}
use quick_chat.Gate.Logic.{Outside, Json}

module _ (out : Outside) where
  -- The request holds the text `v` under the key.
  pub record TextAt (src : Json out) (key v : Bytes) : Type 0 where
    pub value : Json out
    pub found : out.json.member src key ≡ some value
    pub is_text : out.json.as_string value ≡ some v
