-- ===== src/Tests/OnVerify.antt =====
-- The verification server and the gate server at small inputs.
use quick_chat.Prelude.Assoc.{lookup, insert}
use quick_chat.Prelude.{bytes_eq, [], ◌∷◌, ◌++◌, ◌≡◌, ◌↔◌, refl, arith, codes, pos, done, Lacks}
use quick_chat.Common.Config.{make_config, config_index}
use quick_chat.Common.Config.Load.{IniFile}
use quick_chat.Common.Mysql.Dao.{reg_user}
use quick_chat.Common.Mysql.Pool
use quick_chat.Gate.Logic.{document, get_verifycode, user_register}
use quick_chat.Gate.Logic.Register.{register_doc, complaint}
use quick_chat.Verify.Settings.{verify_prefix}
use quick_chat.Verify.Prefix.{prefixes_agree}
use quick_chat.Verify.Service.{Service, GetVerifyRsp, get_verify_code, returns}
use quick_chat.Together.Codes.{code_doc, second_request, code_registers}
use quick_chat.Tests.Toys.{
  ToyJson, str, obj, toy_outside, toy_context, toy_redis, toy_codes, dao_with, sql_con,
}

-- The prefix of this file is not the one that the verification server uses.
abbrev own_prefix : IniFile
own_prefix =
    (codes "Redis", (codes "Host", codes "h") ∷ (codes "verify_prefix", codes "code_") ∷ []) ∷ []

prefixes_agree_example :
    ((config_index (codes "Redis") (codes "verify_prefix") (make_config own_prefix)).0
      ≡ verify_prefix own_prefix)
    ↔ (codes "code_" ≡ codes "verify:")
prefixes_agree_example =
    prefixes_agree (codes "code_") [] [] ((codes "Host", codes "h") ∷ []) [] tt tt
      (λ e. absurd (ground arith), tt)

abbrev asks : ToyJson
asks = obj ((codes "email", codes "c@x") ∷ [])

abbrev carol : ToyJson
carol = obj (
    (codes "email", codes "c@x")
    ∷ (codes "user", codes "carol")
    ∷ (codes "passwd", codes "pw")
    ∷ (codes "confirm", codes "pw")
    ∷ (codes "verifycode", codes "4711")
    ∷ [])

abbrev service : Service toy_redis
service = record { prefix = codes "verify:"; db = [] }

abbrev rsp : GetVerifyRsp
rsp = record { error = pos 0; email = codes "c@x"; code = codes "4711" }

abbrev stored : Service toy_redis
stored = record service { db = (codes "verify:c@x", codes "4711") ∷ [] }

no_zero_prefix : Lacks 0 (codes "verify:")
no_zero_prefix = (
  λ h. absurd (omega (arith, h)),
  (
    λ h. absurd (omega (arith, h)),
    (
      λ h. absurd (omega (arith, h)),
      (
        λ h. absurd (omega (arith, h)),
        (
          λ h. absurd (omega (arith, h)),
          (λ h. absurd (omega (arith, h)), (λ h. absurd (omega (arith, h)), tt)),
        ),
      ),
    ),
  ),
)

no_zero_email : Lacks 0 (codes "c@x")
no_zero_email = (
  λ h. absurd (omega (arith, h)),
  (λ h. absurd (omega (arith, h)), (λ h. absurd (omega (arith, h)), tt)),
)

no_zero_code : Lacks 0 (codes "4711")
no_zero_code = (
  λ h. absurd (omega (arith, h)),
  (
    λ h. absurd (omega (arith, h)),
    (λ h. absurd (omega (arith, h)), (λ h. absurd (omega (arith, h)), tt)),
  ),
)

code_registers_example :
    ((get_verifycode toy_outside asks toy_context).0 ≡ done tt)
    × ((get_verifycode toy_outside asks toy_context).1.body
        ≡ toy_context.body ++ document (code_doc toy_outside toy_codes (str (codes "c@x"))) ∷ [])
    × ((user_register toy_outside (codes "verify:") carol (
          second_request toy_outside toy_codes
            (get_verifycode toy_outside asks toy_context).1
            stored.db)).0
        ≡ done tt)
    × ((user_register toy_outside (codes "verify:") carol (
          second_request toy_outside toy_codes
            (get_verifycode toy_outside asks toy_context).1
            stored.db)).1.body
        ≡ complaint toy_outside (codes "pw") (codes "pw")
          ++ document (
              register_doc toy_outside
                (codes "c@x")
                (codes "carol")
                (codes "pw")
                (codes "pw")
                (codes "4711")
                (pos 7))
            ∷ [])
unfolding lookup insert bytes_eq get_verify_code returns reg_user Pool.get_connection
    Pool.return_connection
code_registers_example =
    code_registers toy_outside toy_codes (codes "verify:") (codes "c@x") (codes "carol")
      (codes "pw") (codes "pw") (codes "4711") asks carol toy_context 1 9 [] service stored rsp 1
      (2 ∷ []) (pos 7) (dao_with (sql_con 2 ∷ sql_con 1 ∷ []))
      (record { value = str (codes "c@x"); found = refl; is_text = refl })
      (record { value = str (codes "c@x"); found = refl; is_text = refl })
      (record { value = str (codes "carol"); found = refl; is_text = refl })
      (record { value = str (codes "pw"); found = refl; is_text = refl })
      (record { value = str (codes "pw"); found = refl; is_text = refl })
      (record { value = str (codes "4711"); found = refl; is_text = refl }) refl
      (record { served = refl; ok = refl; message = refl }) refl refl refl refl no_zero_prefix
      no_zero_email no_zero_code refl (λ e. cc) (λ e. cc)
