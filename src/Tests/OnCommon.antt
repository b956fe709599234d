-- ===== src/Tests/OnCommon.antt =====
-- The modules of Common at small inputs.
use quick_chat.Prelude.Assoc.{lookup, insert}
use quick_chat.Prelude.{
  ◌+◌, true, false, List, [], ◌∷◌, some, ◌≡◌, refl, arith, Bytes, bytes_key, bytes_eq, codes, pos,
  negsuc, length, All, done, and_then,
}
use quick_chat.Common.Text.{to_string, stoi}
use quick_chat.Common.Text.RoundTrip.{stoi-to_string}
use quick_chat.Common.Redis.Server.{Reply, c_str}
use quick_chat.Common.Redis.Pool.{get_connection}
use quick_chat.Common.Redis.Commands.{get, set, with_reply, read_set, read_get}
use quick_chat.Common.Redis.Leak.{
  Call, get_call, set_call, exec, exec_all, connections, exec_all-takes,
}
use quick_chat.Common.Redis.RoundTrip.{set_then_get}
use quick_chat.Common.Mysql.Pool.{
  MySqlPool, Driver, check_connection, get_connection as sql_connection,
}
use quick_chat.Common.Mysql.Dao.{UserInfo, UserRow, value, MysqlDao, check_pwd}
use quick_chat.Common.Mysql.Conserve.{check_pwd_sound}
use quick_chat.Common.Mysql.Refresh.{AllChecked, IsFresh, check_connection_refreshes}
use quick_chat.Tests.Toys.{toy_redis, toy_keeps, redis_with, toy_sql, sql_con, dao_with, blank_info}

prints : to_string (negsuc 119) ≡ codes "-120"
unfolding to_string
prints = refl

reads : stoi (codes " 0042x") ≡ some (pos 42)
unfolding stoi
reads = refl

stoi-to_string_test : stoi (to_string (negsuc 41)) ≡ some (negsuc 41)
stoi-to_string_test = stoi-to_string (negsuc 41) (omega arith)

abbrev redis_section : List (Bytes × List (Bytes × Bytes))
redis_section = (codes "Redis", (codes "Port", codes "6379") ∷ []) ∷ []

abbrev two_calls : List Call
two_calls = set_call (codes "k") (codes "v") ∷ get_call (codes "k") [] ∷ []

exec_all-takes_example :
    length (connections toy_redis (exec_all toy_redis two_calls (redis_with [] (1 ∷ 2 ∷ 3 ∷ []))).1)
      + length two_calls
    ≡ length (connections toy_redis (redis_with [] (1 ∷ 2 ∷ 3 ∷ [])))
unfolding exec_all exec get_connection c_str bytes_eq get set lookup insert with_reply read_set
    read_get
exec_all-takes_example =
    exec_all-takes toy_redis two_calls (redis_with [] (1 ∷ 2 ∷ 3 ∷ [])) refl refl

set_then_get_test :
    (and_then
      (set toy_redis (codes "k") (codes "v") (redis_with [] (1 ∷ 2 ∷ [])))
      (λ stored. get toy_redis (codes "k") [])).0
    ≡ done (true, codes "v")
set_then_get_test =
    set_then_get toy_redis toy_keeps (codes "k") (codes "v") [] (redis_with [] (1 ∷ 2 ∷ [])) 1 2 []
      (omega arith) (omega arith) refl refl

abbrev good_reply : Reply
good_reply = record { kind = 5; str = some (codes "PONG"); integer = pos 0 }

abbrev two_cons : MysqlDao toy_sql
two_cons = dao_with (sql_con 1 ∷ sql_con 2 ∷ [])

abbrev alice_info : UserInfo
alice_info = record { name = codes "alice"; pwd = codes "pw"; uid = pos 3; email = codes "a@x" }

check_pwd_sound_example :
    (row : UserRow) × (toy_sql.select_user 1 (codes "alice") two_cons.db ≡ value (some row))
    × (row.pwd ≡ codes "pw")
    × (alice_info
        ≡ record { name = codes "alice"; pwd = codes "pw"; uid = row.uid; email = row.email })
unfolding check_pwd lookup bytes_eq sql_connection
check_pwd_sound_example =
    check_pwd_sound toy_sql two_cons (sql_con 1) (sql_con 2 ∷ []) refl refl (codes "alice")
      (codes "pw") blank_info alice_info refl refl

abbrev half_dead : Driver
half_dead = record { connect = λ i. some (i + 20); alive = λ c. false }

abbrev stale_pool : MySqlPool
stale_pool = two_cons.pool

check_connection_refreshes_example :
    AllChecked half_dead 200 stale_pool.pool (check_connection half_dead 200 stale_pool).1.pool
    × All (IsFresh 200) (check_connection half_dead 200 stale_pool).1.pool
unfolding check_connection
check_connection_refreshes_example = check_connection_refreshes half_dead 200 stale_pool refl
