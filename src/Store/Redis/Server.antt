-- ===== src/Store/Redis/Server.antt =====
-- What src/store/redis_store.cpp relies on of the server.
use cdr_processor.Base.{ℕ, ◌≡◌, Bool, true, false, Bytes, some, none, List, [], ◌∷◌, ◌++◌, All}
use cdr_processor.Charconv.{from_chars}
use cdr_processor.Store.Redis.{
  Connection, Thread, Wire, Field, no_reply, text, other, ready, accepted, multi, exec,
  progress_key,
}
use cdr_processor.Store.Redis.Transaction.{IsWrite, wire}
use cdr_processor.Aggregate.Writers.Commands.{Command}
use cdr_processor.Sink.Apart.{Fair}
use cdr_processor.Sink.Marked.{marked}

-- What the code makes of a field that it reads.
unfoldable pub number_of : Field → ℕ
number_of no_reply = 0
number_of (text value) = elim (from_chars value) [ none ↦ 0 | some (seq, _) ↦ seq ]
number_of other = 0

-- What a server knows: whether a transaction is open on the connection, the commands that it has
-- executed, in their order, and the same with those behind them that are queued.
pub record View : Type 0 where
  pub in_multi : Bool
  pub executed : List Command
  pub queued_up : List Command

module _ {W : Type 0} (conn : Connection W) (source : Bytes) (view : W → View)
    (reconnect : W → W) where
  -- A server that is there, has this client alone, and keeps its transactions: MULTI opens one, the
  -- writes sent in it are queued, EXEC executes them, a read outside of one finds the last mark of
  -- the source where no other command used the key of the progress, and a connection that is lost
  -- takes what it did not commit with it.
  pub record IsServer : Type 0 where
    pub peek : (w : W) → conn.peek w ≡ ready
    pub connects : (w : W) → (conn.get w).0 ≡ true
    pub get : (w : W) → view (conn.get w).1 ≡ view w
    pub appends : (c : Wire) (w : W) → (conn.append c w).0 ≡ true
    pub replies : (w : W) → (conn.reply w).0 ≡ accepted
    pub reply : (w : W) → view (conn.reply w).1 ≡ view w
    pub begin :
        (w : W)
        → (view w).in_multi ≡ false
        → view (conn.append multi w).1
          ≡ record { in_multi = true; executed = (view w).executed; queued_up = (view w).executed }
    pub queues :
        (c : Command) (w : W)
        → IsWrite c
        → (view w).in_multi ≡ true
        → view (conn.append (wire c) w).1 ≡ record {
          in_multi = true;
          executed = (view w).executed;
          queued_up = (view w).queued_up ++ c ∷ [];
        }
    pub commit :
        (w : W)
        → (view w).in_multi ≡ true
        → view (conn.append exec w).1 ≡ record {
          in_multi = false;
          executed = (view w).queued_up;
          queued_up = (view w).queued_up;
        }
    pub idle : (w : W) → (view w).in_multi ≡ false → (view w).queued_up ≡ (view w).executed
    pub hget : (w : W) → view (conn.hget progress_key source w).1 ≡ view w
    pub reads :
        (w : W)
        → (view w).in_multi ≡ false
        → All Fair (view w).executed
        → (number_of (conn.hget progress_key source w).0 ≡ marked source 0 (view w).executed)
    pub answers : (w : W) → ¬ ((conn.hget progress_key source w).0 ≡ no_reply)
    pub lost :
        (w : W)
        → view (reconnect w)
          ≡ record { in_multi = false; executed = (view w).executed; queued_up = (view w).executed }

-- A new process: nothing queued, no batch open.
unfoldable pub new_process : {W : Type 0} → (W → W) → Thread W → Thread W
new_process reconnect s = record { queued = 0; open_batch = false; world = reconnect s.world }
