-- ===== src/Tests/OnServers.antt =====
-- The gate server with the status server, and the life of a connection.
use quick_chat.Prelude.Assoc.{lookup, insert}
use quick_chat.Prelude.{
  true, false, [], ◌∷◌, ◌++◌, none, some, ◌≡◌, refl, arith, bytes_key, bytes_eq, codes, pos, length,
  done, ap,
}
use quick_chat.Common.ErrorCodes.{uid_invalid}
use quick_chat.Common.Config.{ConfigMap, make_config, config_index}
use quick_chat.Common.Text.{to_string, stoi}
use quick_chat.Common.Redis.Server.{c_str}
use quick_chat.Common.Redis.Pool.{get_connection}
use quick_chat.Common.Redis.Commands.{set, hget, with_reply, read_set, read_hget}
use quick_chat.Common.Mysql.Dao.{UserInfo, check_pwd}
use quick_chat.Common.Mysql.Pool
use quick_chat.Gate.Logic.{document, user_login}
use quick_chat.Gate.Http.{HttpConnection}
use quick_chat.Gate.Logic.SignIn.{login_doc}
use quick_chat.Gate.Http.Deadline.{
  Life, born, tick, gives_up, answers, Reach, here, next, reading_uncut, written_in_time, writing,
  waiting, cancelled, over, accepting, reading, accepts, late_client_cut,
}
use quick_chat.Status.Service.{
  ChatServer, Service, GetChatServerRsp, get_chat_server, login, make_servers,
}
use quick_chat.Status.Service.Servers.{join_words, make_servers_lists, configured, setting}
use quick_chat.Together.{received, signed_in_then_refused}
use quick_chat.Tests.Toys.{
  ToyJson, str, obj, toy_outside, toy_context, toy_redis, toy_keeps, redis_with, dao_with, sql_con,
  blank_info,
}

abbrev alice_request : ToyJson
alice_request = obj ((codes "user", codes "alice") ∷ (codes "passwd", codes "pw") ∷ [])

abbrev alice_info : UserInfo
alice_info = record { name = codes "alice"; pwd = codes "pw"; uid = pos 3; email = codes "a@x" }

abbrev chat1 : ChatServer
chat1 = record {
  host = codes "127.0.0.1";
  port = codes "8090";
  name = codes "s1";
  con_count = pos 0;
}

abbrev before : Service toy_redis
before = record {
  servers = (codes "s1", chat1) ∷ [];
  redis = redis_with ((codes "s1", codes "9") ∷ []) (1 ∷ 2 ∷ 3 ∷ 4 ∷ []);
}

-- What `GetChatServer` leaves: the token is stored, and two connections are left.
abbrev after : Service toy_redis
after = record {
  servers = (codes "s1", record chat1 { con_count = pos 9 }) ∷ [];
  redis = redis_with ((codes "s1", codes "9") ∷ (codes "utoken_3", codes "tok") ∷ []) (3 ∷ 4 ∷ []);
}

abbrev rsp : GetChatServerRsp
rsp = record { error = pos 0; host = codes "127.0.0.1"; port = codes "8090"; token = codes "tok" }

get_chat_server_test : get_chat_server toy_redis (pos 3) (codes "tok") before ≡ (done rsp, after)
unfolding get_chat_server set hget with_reply get_connection read_set read_hget c_str bytes_eq
    lookup insert stoi to_string
get_chat_server_test = refl

signed_in_then_refused_example :
    ((user_login toy_outside blank_info alice_request toy_context).1.body
      ≡ [] ++ document (login_doc toy_outside (codes "alice") alice_info (received rsp)) ∷ [])
    × (rsp.token ≡ codes "tok")
    × ((login toy_redis (pos 3) rsp.token after).0
        ≡ done (record { error = uid_invalid; uid = pos 0; token = [] }))
unfolding lookup bytes_eq check_pwd Pool.get_connection Pool.return_connection
signed_in_then_refused_example =
    signed_in_then_refused toy_outside toy_redis toy_keeps blank_info alice_info alice_request
      (codes "alice") (codes "pw") (codes "tok") toy_context (dao_with (sql_con 2 ∷ sql_con 1 ∷ []))
      1 [] before after rsp 3 (4 ∷ [])
      (record { value = str (codes "alice"); found = refl; is_text = refl })
      (record { value = str (codes "pw"); found = refl; is_text = refl }) refl refl refl
      (record { served = get_chat_server_test; ok = refl; message = refl }) refl refl (omega arith)

abbrev cfg : ConfigMap
cfg = make_config (
    (codes "chatservers", (codes "Name", codes "a,b") ∷ [])
    ∷ (codes "a", (codes "Name", codes "s1") ∷ (codes "Host", codes "h") ∷ [])
    ∷ (codes "b", (codes "Name", codes "s22") ∷ (codes "Port", codes "9") ∷ [])
    ∷ [])

make_servers_lists_example :
    lookup (setting cfg (codes "a") (codes "Name")) (make_servers cfg)
    ≡ some (configured cfg (codes "a"))
unfolding make_config config_index lookup insert bytes_eq join_words
make_servers_lists_example =
    make_servers_lists cfg [] (codes "b" ∷ []) (codes "a")
      (
        (λ e. absurd (omega (arith, ap length e)), omega arith),
        ((λ e. absurd (omega (arith, ap length e)), omega arith), tt),
      )
      refl (λ e. absurd (omega (arith, ap length e))) (λ e. absurd (omega (arith, ap length e)), tt)

abbrev connection : HttpConnection toy_outside
connection = record {
  context = toy_context;
  get_url = [];
  get_params = [];
  status = none;
  server_field = false;
  written = 0;
  deadline = false;
}

abbrev asked : Life
asked = record born { stage = reading; now = 1 }

asked_at_one : Reach born asked
asked_at_one = next (next here tick) (accepts refl)

reading_uncut_test : (asked.cut ≡ false) × (asked.cut ≡ false)
reading_uncut_test = reading_uncut asked_at_one refl (gives_up refl)

abbrev answered : Life
answered = record asked { stage = writing; timer = waiting }

abbrev finished : Life
finished = record answered { stage = over; timer = cancelled; now = 2 }

written_in_time_example : finished.cut ≡ false
written_in_time_example =
    written_in_time {t = answered} {u = finished} (next asked_at_one (answers refl)) refl
      (omega arith) (next here tick)

late_client_cut_example :
    (t u : Life) × Reach born t
    × (t.stage ≡ accepting)
    × (t.now ≡ 61)
    × Reach t u
    × (u.stage ≡ writing)
    × (u.cut ≡ true)
    × (u.now ≡ 61)
late_client_cut_example = late_client_cut 61 (omega arith)
