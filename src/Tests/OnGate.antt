-- ===== src/Tests/OnGate.antt =====
-- The gate server at small inputs.
use quick_chat.Prelude.Assoc.{lookup}
use quick_chat.Prelude.{
  false, [], ◌∷◌, ◌++◌, none, ◌≡◌, refl, Bytes, bytes_key, bytes_eq, codes, pos, ◌+◌, done,
}
use quick_chat.Common.Redis.Server.{c_str}
use quick_chat.Common.Redis.Pool.{get_connection}
use quick_chat.Common.Redis.Commands.{get, with_reply, read_get}
use quick_chat.Common.Mysql.Dao.{MysqlDao, UserInfo, check_pwd}
use quick_chat.Common.Mysql.Pool
use quick_chat.Common.RpcPool
use quick_chat.Gate.Clients
use quick_chat.Gate.Logic.{document, Tables, reset_pwd, user_login, handle_post}
use quick_chat.Gate.Logic.Reset.{reset_doc, reset_pwd_unknown_user}
use quick_chat.Gate.Logic.SignIn.{login_doc, user_login_accepted}
use quick_chat.Gate.Http.{post_verb, Request, HttpConnection, handle_req}
use quick_chat.Gate.Http.Replies.{handle_req_answers}
use quick_chat.Tests.Toys.{
  ToyJson, str, obj, toy_outside, toy_context, toy_sql, redis_with, dao_with, sql_con, client_with,
  chat_reply, blank_info,
}

abbrev prefix : Bytes
prefix = codes "verify:"

abbrev request : Bytes → Bytes → Bytes → Bytes → ToyJson
request name pwd confirm code = obj (
    (codes "email", codes "b@x")
    ∷ (codes "user", name)
    ∷ (codes "passwd", pwd)
    ∷ (codes "confirm", confirm)
    ∷ (codes "verifycode", code)
    ∷ [])

-- The confirmation of this one is wrong.
abbrev bob_request : ToyJson
bob_request = request (codes "bob") (codes "pw") (codes "wp") (codes "4711")

abbrev bob_mysql : MysqlDao toy_sql
bob_mysql = dao_with (sql_con 2 ∷ sql_con 1 ∷ [])

reset_pwd_unknown_user_example :
    ((reset_pwd toy_outside prefix bob_request toy_context).0 ≡ done tt)
    × ((reset_pwd toy_outside prefix bob_request toy_context).1.body
        ≡ toy_context.body
          ++ document
              (reset_doc toy_outside (codes "b@x") (codes "bob") (codes "pw") (codes "4711"))
            ∷ [])
    × ((reset_pwd toy_outside prefix bob_request toy_context).1.mysql.pool.pool
        ≡ [] ++ sql_con 2 ∷ [])
unfolding lookup bytes_eq get with_reply get_connection read_get c_str
reset_pwd_unknown_user_example =
    reset_pwd_unknown_user toy_outside prefix bob_request (codes "b@x") (codes "bob") (codes "pw")
      (codes "4711") toy_context
      (record { value = str (codes "b@x"); found = refl; is_text = refl })
      (record { value = str (codes "bob"); found = refl; is_text = refl })
      (record { value = str (codes "pw"); found = refl; is_text = refl })
      (record { value = str (codes "4711"); found = refl; is_text = refl })
      (redis_with ((codes "verify:b@x", codes "4711") ∷ []) (2 ∷ [])) refl (sql_con 1) (sql_con 2)
      [] (pos 0) refl refl refl refl

abbrev alice_request : ToyJson
alice_request = obj ((codes "user", codes "alice") ∷ (codes "passwd", codes "pw") ∷ [])

abbrev alice_info : UserInfo
alice_info = record { name = codes "alice"; pwd = codes "pw"; uid = pos 3; email = codes "a@x" }

user_login_accepted_test : user_login toy_outside blank_info alice_request toy_context ≡ (
  done tt,
  record toy_context {
    body =
        toy_context.body
        ++ document (login_doc toy_outside (codes "alice") alice_info chat_reply) ∷ [];
    mysql = bob_mysql;
  },
)
unfolding lookup bytes_eq check_pwd Pool.get_connection Pool.return_connection
    Clients.get_chat_server RpcPool.get_connection RpcPool.return_connection
user_login_accepted_test =
    user_login_accepted toy_outside blank_info alice_info alice_request (codes "alice") (codes "pw")
      toy_context (record { value = str (codes "alice"); found = refl; is_text = refl })
      (record { value = str (codes "pw"); found = refl; is_text = refl }) bob_mysql chat_reply
      (client_with (1 ∷ [])) refl refl

abbrev no_tables : Tables toy_outside
no_tables = record { get_handlers = []; post_handlers = [] }

abbrev post_request : Request
post_request = record { method = post_verb; target = codes "/x"; body = [] }

abbrev connection : HttpConnection toy_outside
connection = record {
  context = toy_context;
  get_url = [];
  get_params = [];
  status = none;
  server_field = false;
  written = 0;
  deadline = false;
}

handle_req_answers_test :
    (handle_req toy_outside no_tables post_request connection).1.written ≡ connection.written + 1
unfolding handle_req handle_post lookup
handle_req_answers_test =
    handle_req_answers toy_outside no_tables post_request connection (λ e. cc) refl
