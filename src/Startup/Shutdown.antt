-- ===== src/Startup/Shutdown.antt =====
-- How the processes of the gate and of the chat server end after a signal: the handlers of
-- servers/GateServer/src/main.cpp and servers/ChatServer/src/main.cpp, and the destructor of the
-- pool in servers/common/src/AsioIOServicePool.cpp, which runs when the static pointer of
-- servers/common/include/Singleton.h is destroyed after `main`.
use quick_chat.Prelude.{Outcome, done, blocked, threw, crashed, M, ◌>>◌}
use quick_chat.Common.IoPool.{IoServicePool, stop, destroy}

-- The gate: the handler stops `ioc` alone, and the pool is destroyed after `main`.
pub gate_end : M IoServicePool Unit
gate_end = destroy

-- The chat server: the handler stops the pool too, where the loop still runs at the signal. A start
-- that threw has ended the loop and then `main`, so that no handler runs.
pub chat_end : Outcome {0} Unit → M IoServicePool Unit
chat_end (done u) p = (stop >> destroy) p
chat_end threw p = destroy p
chat_end blocked p = (blocked, p)
chat_end crashed p = (crashed, p)
