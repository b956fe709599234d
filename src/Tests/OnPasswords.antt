-- ===== src/Tests/OnPasswords.antt =====
-- A reset of a password at small inputs.
use quick_chat.Prelude.Assoc.{lookup}
use quick_chat.Prelude.{[], ◌∷◌, ◌++◌, ◌≡◌, refl, arith, ap, length, bytes_eq, codes, pos, done}
use quick_chat.Common.Redis.Server.{c_str}
use quick_chat.Common.Redis.Pool.{get_connection}
use quick_chat.Common.Redis.Commands.{get, with_reply, read_get}
use quick_chat.Common.RpcPool
use quick_chat.Gate.Clients
use quick_chat.Gate.Logic.{document, error_doc, reset_pwd, user_login, Context}
use quick_chat.Gate.Logic.Reset.{reset_doc}
use quick_chat.Common.ErrorCodes.{passwd_invalid}
use quick_chat.Together.Logins.{fresh_response, sign_in_answer, info_of}
use quick_chat.Together.Passwords.{reset_then_login}
use quick_chat.Tests.Toys.{
  ToyJson, str, obj, toy_outside, toy_context, toy_passwords, redis_with, sql_con, client_with,
  chat_reply, alice_row, blank_info,
}

abbrev with_code : Context toy_outside
with_code = record toy_context {
  redis = redis_with ((codes "verify:a@x", codes "4711") ∷ []) (1 ∷ 2 ∷ []);
}

abbrev new_password : ToyJson
new_password = obj (
    (codes "email", codes "a@x")
    ∷ (codes "user", codes "alice")
    ∷ (codes "passwd", codes "new")
    ∷ (codes "verifycode", codes "4711")
    ∷ [])

abbrev old_password : ToyJson
old_password = obj ((codes "user", codes "alice") ∷ (codes "passwd", codes "pw") ∷ [])

reset_then_login_example :
    let t : Context toy_outside =
      fresh_response toy_outside
        (reset_pwd toy_outside (codes "verify:") new_password with_code).1 in
    ((reset_pwd toy_outside (codes "verify:") new_password with_code).0 ≡ done tt)
    × ((reset_pwd toy_outside (codes "verify:") new_password with_code).1.body
        ≡ with_code.body
          ++ document
              (reset_doc toy_outside (codes "a@x") (codes "alice") (codes "new") (codes "4711"))
            ∷ [])
    × ((user_login toy_outside blank_info new_password t).1.body
        ≡ sign_in_answer toy_outside
            (codes "alice")
            (info_of toy_outside (codes "alice") (codes "new") alice_row)
            chat_reply)
    × ((user_login toy_outside blank_info old_password t).1.body
        ≡ document (error_doc toy_outside passwd_invalid) ∷ [])
unfolding lookup bytes_eq get with_reply get_connection read_get c_str Clients.get_chat_server
    RpcPool.get_connection RpcPool.return_connection
reset_then_login_example =
    reset_then_login toy_outside toy_passwords (codes "verify:") (codes "a@x") (codes "alice")
      (codes "new") (codes "pw") (codes "4711") new_password new_password old_password with_code
      (redis_with ((codes "verify:a@x", codes "4711") ∷ []) (2 ∷ [])) (sql_con 1) (sql_con 2) []
      alice_row (pos 0) blank_info chat_reply (client_with (1 ∷ []))
      (record { value = str (codes "a@x"); found = refl; is_text = refl })
      (record { value = str (codes "alice"); found = refl; is_text = refl })
      (record { value = str (codes "new"); found = refl; is_text = refl })
      (record { value = str (codes "4711"); found = refl; is_text = refl })
      (record { value = str (codes "alice"); found = refl; is_text = refl })
      (record { value = str (codes "new"); found = refl; is_text = refl })
      (record { value = str (codes "alice"); found = refl; is_text = refl })
      (record { value = str (codes "pw"); found = refl; is_text = refl })
      (λ e. absurd (omega (arith, ap length e))) refl refl refl refl refl refl refl
