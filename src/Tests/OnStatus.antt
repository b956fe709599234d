-- ===== src/Tests/OnStatus.antt =====
-- The status server at small inputs.
use quick_chat.Prelude.Assoc.{lookup}
use quick_chat.Prelude.{
  false, [], ◌∷◌, ◌≡◌, ◌⊎◌, refl, ap, arith, Bytes, bytes_key, bytes_eq, codes, ℤ, pos, length,
  done,
}
use quick_chat.Common.ErrorCodes.{success}
use quick_chat.Common.Text.{to_string, stoi}
use quick_chat.Common.Redis.Server.{c_str}
use quick_chat.Common.Redis.Pool.{get_connection}
use quick_chat.Common.Redis.Commands.{get, hget, with_reply, read_get, read_hget}
use quick_chat.Status.Service.{
  ChatServer, Servers, Service, load_count, pick_server, token_key, login,
}
use quick_chat.Status.Service.Login.{login_accepts}
use quick_chat.Status.Service.MinServer.{NoneBelow, Recounted, InServers, pick_server_min}
use quick_chat.Tests.Toys.{toy_redis, redis_with}

abbrev chat_server : Bytes → ℤ → ChatServer
chat_server name count = record {
  host = codes "h";
  port = codes "p";
  name = name;
  con_count = count;
}

abbrev s1 : ChatServer
s1 = chat_server (codes "s1") (pos 0)

abbrev s2 : ChatServer
s2 = chat_server (codes "s22") (pos 0)

-- The second server has the lower count.
abbrev two_servers : Service toy_redis
two_servers = record {
  servers = (codes "s1", s1) ∷ (codes "s22", s2) ∷ [];
  redis = redis_with ((codes "s1", codes "9") ∷ (codes "s22", codes "4") ∷ []) (1 ∷ 2 ∷ []);
}

pick_server_min_example :
    (others : Servers) × ((pick_server toy_redis two_servers).1.servers
      ≡ (codes "s1", chat_server (codes "s22") (pos 4)) ∷ others)
    × NoneBelow (pos 4) others
    × Recounted ((codes "s22", s2) ∷ []) others
    × (((load_count toy_redis s1.name two_servers).0 ≡ done (pos 4))
          × (chat_server (codes "s22") (pos 4) ≡ record s1 { con_count = pos 4 })
        ⊎ InServers (chat_server (codes "s22") (pos 4)) others)
unfolding pick_server hget with_reply get_connection read_hget c_str bytes_eq lookup stoi
pick_server_min_example =
    pick_server_min toy_redis (codes "s1") s1 (chat_server (codes "s22") (pos 4))
      ((codes "s22", s2) ∷ []) two_servers refl
      (((λ e. absurd (omega (arith, ap length e))), tt), (tt, tt)) refl

abbrev no_servers : Service toy_redis
no_servers = record { servers = []; redis = redis_with [] (1 ∷ 2 ∷ []) }

login_accepts_test :
    (◌≡◌ {A = Bytes} [] [])
    × ((get toy_redis (token_key toy_redis (pos 3)) [] no_servers.redis).0 ≡ done (false, []))
unfolding login get with_reply get_connection read_get c_str bytes_eq lookup to_string
login_accepts_test =
    login_accepts toy_redis (pos 3) [] no_servers
      (record { error = success; uid = pos 3; token = [] }) refl refl
