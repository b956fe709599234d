-- ===== src/Gate/Logic/Register.antt =====
-- "/user_register", run to its end.
use quick_chat.Prelude.{
  true, List, [], ◌∷◌, ◌++◌, ◌≡◌, ◌≢◌, arith, append_assoc, Bytes, bytes_eq, bytes_eq_iff, codes, ℤ,
  pos, negsuc, eqb_ℤ_iff, if◌then◌else◌, done,
}
use quick_chat.Common.ErrorCodes.{success, passwd_err, verify_code_err}
use quick_chat.Common.Redis.Commands.{RedisMgr, get}
use quick_chat.Common.Mysql.Dao.{MysqlDao, reg_user}
use quick_chat.Gate.Logic.Fields.{TextAt}
use quick_chat.Gate.Logic.{
  Outside, Context, Chunk, document, number, text, Root, Json, error_doc, user_register,
}

module _ (out : Outside) where
  abbrev pub register_doc : Bytes → Bytes → Bytes → Bytes → Bytes → ℤ → Root out
  register_doc email name pwd confirm code uid =
      (codes "error", number success)
      ∷ (codes "uid", number uid)
      ∷ (codes "email", text email)
      ∷ (codes "user", text name)
      ∷ (codes "passwd", text pwd)
      ∷ (codes "confirm", text confirm)
      ∷ (codes "verifycode", text code)
      ∷ []

  -- What the handler has written before it looks up the verification code.
  abbrev pub complaint : Bytes → Bytes → List (Chunk (Json out))
  complaint pwd confirm =
      if bytes_eq pwd confirm then [] else document (error_doc out passwd_err) ∷ []

  module _ (prefix : Bytes) (src : Json out) (email name pwd confirm code : Bytes) (s : Context out)
      (has_email : TextAt out src (codes "email") email)
      (has_name : TextAt out src (codes "user") name)
      (has_pwd : TextAt out src (codes "passwd") pwd)
      (has_confirm : TextAt out src (codes "confirm") confirm)
      (has_code : TextAt out src (codes "verifycode") code) where
    pub user_register_succeeds :
        (uid : ℤ) (redis : RedisMgr out.redis_server) (mysql : MysqlDao out.sql_server)
        → get out.redis_server (prefix ++ email) [] s.redis ≡ (done (true, code), redis)
        → reg_user out.sql_server name email pwd s.mysql ≡ (done uid, mysql)
        → uid ≢ pos 0
        → uid ≢ negsuc 0
        → user_register out prefix src s ≡ (
          done tt,
          record s {
            body =
                s.body
                ++ (complaint pwd confirm
                    ++ document (register_doc email name pwd confirm code uid) ∷ []);
            redis = redis;
            mysql = mysql;
          },
        )
    unfolding user_register
    user_register_succeeds uid redis mysql g u n0 n1 = ground (
      arith,
      bytes_eq_iff code code,
      eqb_ℤ_iff uid (pos 0),
      eqb_ℤ_iff uid (negsuc 0),
      append_assoc s.body (document (error_doc out passwd_err) ∷ [])
          (document (register_doc email name pwd confirm code uid) ∷ []),
    )

    -- A request with all its fields, for which `Get` finds another verification code than that of
    -- the request, is answered with the error for the code, after the one for the confirmation if
    -- that is wrong too; the MySQL client is left alone, so nobody is registered.
    user_register_refused :
        (stored : Bytes) (redis : RedisMgr out.redis_server)
        → get out.redis_server (prefix ++ email) [] s.redis ≡ (done (true, stored), redis)
        → stored ≢ code
        → user_register out prefix src s ≡ (
          done tt,
          record s {
            body =
                s.body ++ (complaint pwd confirm ++ document (error_doc out verify_code_err) ∷ []);
            redis = redis;
          },
        )
    unfolding user_register
    user_register_refused stored redis g ne = ground (
      arith,
      bytes_eq_iff stored code,
      append_assoc s.body (document (error_doc out passwd_err) ∷ [])
          (document (error_doc out verify_code_err) ∷ []),
    )
