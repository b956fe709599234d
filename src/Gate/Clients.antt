-- ===== src/Gate/Clients.antt =====
-- servers/GateServer/src/VerifyGrpcClient.cpp and servers/GateServer/src/StatusGrpcClient.cpp: a
-- call of a remote service on a stub of the pool. The services are a parameter.
pub mod Conserve
use quick_chat.Prelude.{
  ℕ, Bool, true, false, Option, none, some, ◌≡◌, Bytes, ℤ, pos, if◌then◌else◌, Outcome, done,
  blocked, crashed, M, ◌>>=◌, and_then, return,
}
use quick_chat.Common.Defer.{defer}
use quick_chat.Common.ErrorCodes.{rpc_failed}
use quick_chat.Common.RpcPool.{RpConPool, get_connection, return_connection}

-- The messages of protos/message.proto.
pub record GetVerifyRsp : Type 0 where
  pub error : ℤ
  pub email : Bytes
  pub code : Bytes

pub record GetChatServerRsp : Type 0 where
  pub error : ℤ
  pub host : Bytes
  pub port : Bytes
  pub token : Bytes

-- A remote call on a stub: whether its status is ok, the reply, and the remote state after it.
pub record Remote : Type 1 where
  pub Peer : Type 0
  pub verify_code : ℕ → Bytes → Peer → Bool × GetVerifyRsp × Peer
  pub chat_server : ℕ → ℤ → Peer → Bool × GetChatServerRsp × Peer

module _ (net : Remote) where
  -- A client: its pool, with the services that the stubs reach.
  pub record Client : Type 0 where
    pub pool : RpConPool
    pub peer : net.Peer

  take_stub : M Client (Option ℕ)
  take_stub s = let r = get_connection s.pool in (r.0, record s { pool = r.1 })

  -- A call through a null stub is undefined behaviour.
  verify_on : Bytes → Option ℕ → M Client GetVerifyRsp
  verify_on email none s = (crashed, s)
  verify_on email (some stub) s =
      let (ok, reply, peer) = net.verify_code stub email s.peer in
      (
        done (if ok then reply else record reply { error = rpc_failed }),
        record { pool = return_connection s.pool stub; peer = peer },
      )

  -- `VerifyGrpcClient::GetVerifyCode`
  unfoldable pub get_verify_code : Bytes → M Client GetVerifyRsp
  unfolding take_stub verify_on
  get_verify_code email = take_stub >>= verify_on email

  chat_server_on : ℤ → Option ℕ → M Client GetChatServerRsp
  chat_server_on uid none s = (crashed, s)
  chat_server_on uid (some stub) s =
      let (ok, reply, peer) = net.chat_server stub uid s.peer in
      defer (λ (u : Client). record u { pool = return_connection u.pool stub })
        (return (if ok then reply else record reply { error = rpc_failed }))
        (record s { peer = peer })

  -- `StatusGrpcClient::GetChatServer`
  unfoldable pub get_chat_server : ℤ → M Client GetChatServerRsp
  unfolding take_stub chat_server_on
  get_chat_server uid = take_stub >>= chat_server_on uid
