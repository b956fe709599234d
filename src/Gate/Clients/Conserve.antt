-- ===== src/Gate/Clients/Conserve.antt =====
-- The stubs that the clients of the gate server use.
use quick_chat.Prelude.{ℕ, false, List, [], ◌∷◌, ◌++◌, ◌≡◌, Bytes, ℤ, arith, done}
use quick_chat.Common.ErrorCodes.{rpc_failed}
use quick_chat.Common.RpcPool.{get_connection, return_connection}
use quick_chat.Gate.Clients.{Remote, Client, get_verify_code, get_chat_server}

module _ (net : Remote) (s : Client net) (c : ℕ) (cs : List ℕ) (running : s.pool.b_stop ≡ false)
    (held : s.pool.connections ≡ c ∷ cs) where
  -- On a running pool that holds a stub, both calls leave the pool with the stub from the front at
  -- the end of the queue, also where the remote call fails.
  clients-rotate :
      (email : Bytes) (uid : ℤ)
      → ((get_verify_code net email s).1.pool ≡ record s.pool { connections = cs ++ c ∷ [] })
        × ((get_chat_server net uid s).1.pool ≡ record s.pool { connections = cs ++ c ∷ [] })
  unfolding get_verify_code get_chat_server get_connection return_connection
  clients-rotate email uid = (ground arith, ground arith)

  -- A remote call that fails shows as `RPCFailed` in the reply, whatever the reply holds.
  failed_call :
      (uid : ℤ)
      → (net.chat_server c uid s.peer).0 ≡ false
      → (get_chat_server net uid s).0
        ≡ done (record ((net.chat_server c uid s.peer).1) { error = rpc_failed })
  unfolding get_chat_server get_connection return_connection
  failed_call uid h = ground arith
