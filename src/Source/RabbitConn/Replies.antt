-- ===== src/Source/RabbitConn/Replies.antt =====
-- The replies of the broker in src/source/rabbit_conn.cpp: whether a call went well, and what the log
-- says where it did not. The texts of rabbitmq-c's own errors are part of the reply.
use cdr_processor.Base.{
  ℕ, ◌≡◌, ◌⊎◌, inl, inr, refl, Bool, true, false, Option, none, some, [], ◌++◌, Bytes, codes,
}
use cdr_processor.Charconv.{to_chars}

-- What a server exception carries: a close of the connection or of the channel, with its code and
-- its text, or another method, by its number.
pub data Exception : Type 0 where
  connection_close : ℕ → Option Bytes → Exception
  channel_close : ℕ → Option Bytes → Exception
  another : ℕ → Exception

-- `amqp_rpc_reply_t` by its `reply_type`.
pub data RpcReply : Type 0 where
  normal : RpcReply
  no_reply : RpcReply
  library_exception : Bytes → RpcReply
  server_exception : Exception → RpcReply
  unknown : RpcReply

-- `to_string`: bytes that are not there give the empty text.
abbrev pub to_string : Option Bytes → Bytes
to_string none = []
to_string (some b) = b

-- `reason_of`
unfoldable pub reason_of : RpcReply → Bytes
reason_of (library_exception text) = text
reason_of (server_exception (connection_close code text)) =
    to_chars code ++ (codes " " ++ to_string text)
reason_of (server_exception (channel_close code text)) =
    to_chars code ++ (codes " " ++ to_string text)
reason_of (server_exception (another id)) = codes "server error " ++ to_chars id
reason_of no_reply = codes "no reply"
reason_of normal = codes "unknown reply"
reason_of unknown = codes "unknown reply"

-- `rpc_ok`, with what it says in the log.
unfoldable pub rpc_ok : RpcReply → Bytes → Bool × Option Bytes
unfolding reason_of
rpc_ok normal what = (true, none)
rpc_ok no_reply what = (false, some (what ++ (codes " failed: " ++ reason_of no_reply)))
rpc_ok (library_exception text) what =
    (false, some (what ++ (codes " failed: " ++ reason_of (library_exception text))))
rpc_ok (server_exception e) what =
    (false, some (what ++ (codes " failed: " ++ reason_of (server_exception e))))
rpc_ok unknown what = (false, some (what ++ (codes " failed: " ++ reason_of unknown)))

-- A call that did not go well is told of, and only such a one.
pub rpc_ok-cases :
    (reply : RpcReply) (what : Bytes)
    → ((rpc_ok reply what).0 ≡ true) × ((rpc_ok reply what).1 ≡ none)
      ⊎ (((rpc_ok reply what).0 ≡ false)
          × ((rpc_ok reply what).1 ≡ some (what ++ (codes " failed: " ++ reason_of reply))))
unfolding rpc_ok
rpc_ok-cases normal what = inl (refl, refl)
rpc_ok-cases no_reply what = inr (refl, refl)
rpc_ok-cases (library_exception text) what = inr (refl, refl)
rpc_ok-cases (server_exception e) what = inr (refl, refl)
rpc_ok-cases unknown what = inr (refl, refl)
