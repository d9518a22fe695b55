-- ===== src/Source/RabbitConn.antt =====
-- src/source/rabbit_conn.cpp: one connection to the broker. What the calls of rabbitmq-c return is an
-- argument of each operation; the connections and channels that the code makes and ends through
-- them are counted beside its state. The reasons that the log gives are left out, and so is the
-- type of a message, which nothing reads.
pub mod Balance
pub mod Replies
use cdr_processor.Base.{ℕ, ◌+◌, Bool, true, false, ◌&&◌, not, List, [], ◌∷◌, Bytes, if◌then◌else◌}
use cdr_processor.Source.Rabbit.{Message, Delivery, message, timeout, lost}

-- `m_conn`, by whether it is there, and `m_channel_open`.
pub record RabbitConn : Type 0 where
  pub connected : Bool
  pub channel_open : Bool

-- How many connections were made by `amqp_new_connection` and destroyed, and how many channels were
-- opened and closed.
pub record Ledger : Type 0 where
  pub made : ℕ
  pub destroyed : ℕ
  pub opened : ℕ
  pub closed : ℕ

-- What the calls in `open` return, in their order: whether each succeeds.
pub record Outcome : Type 0 where
  pub url_parsed : Bool
  pub connection_made : Bool
  pub socket_made : Bool
  pub socket_opened : Bool
  pub logged_in : Bool
  pub channel_opened : Bool
  pub qos_set : Bool
  pub consuming : Bool

-- What `amqp_consume_message` gives: a normal reply, a timeout of the library, or anything else.
pub data Reply : Type 0 where
  envelope : ℕ → Bytes → Reply
  timed_out : Reply
  broken : Reply

abbrev pub State : Type 0
State = RabbitConn × Ledger

abbrev pub new_state : State
new_state = (
  record { connected = false; channel_open = false },
  record { made = 0; destroyed = 0; opened = 0; closed = 0 },
)

-- `RabbitConn::close`
unfoldable pub close : State → State
close (c, l) =
    let closed = if c.channel_open then l.closed + 1 else l.closed in
    if not c.connected then (c, l) else (
      record { connected = false; channel_open = false },
      record l { closed = closed; destroyed = l.destroyed + 1 },
    )

-- A step of `open` that failed, which closes what is open.
abbrev pub give_up : State → Bool × State
give_up s = (false, close s)

-- `RabbitConn::open`, behind its `close`.
unfoldable pub open_from : Outcome → State → Bool × State
unfolding close
open_from o (c, l) =
    let held : State = (record c { connected = true }, record l { made = l.made + 1 }) in
    let channel : State = (
      record { connected = true; channel_open = true },
      record l { made = l.made + 1; opened = l.opened + 1 },
    ) in
    if not o.url_parsed
    then (false, (c, l))
    else if not o.connection_made
    then (false, (c, l))
    else if not o.socket_made
    then give_up held
    else if not o.socket_opened
    then give_up held
    else if not o.logged_in
    then give_up held
    else if not o.channel_opened
    then give_up held
    else if not o.qos_set
    then give_up channel
    else if not o.consuming
    then give_up channel
    else (true, channel)

-- `RabbitConn::open`
unfoldable pub open_queue : Outcome → State → Bool × State
unfolding open_from close
open_queue o s = open_from o (close s)

-- `RabbitConn::consume`, with the reply that the library has for it.
unfoldable pub consume : Reply → RabbitConn → Delivery
consume reply c =
    let delivery : Delivery = elim reply [
      | envelope tag body ↦ message (record { tag = tag; body = body })
      | timed_out ↦ timeout
      | broken ↦ lost
    ] in
    if not (c.connected && c.channel_open) then lost else delivery

-- `RabbitConn::ack`, with whether `amqp_basic_ack` gives `AMQP_STATUS_OK`.
unfoldable pub ack : Bool → RabbitConn → Bool
ack sent c = if not (c.connected && c.channel_open) then false else sent

-- What the owner of a connection does to its state: opens it, again or for the first time, or
-- destroys it, which closes it.
pub data Use : Type 0 where
  opened : Outcome → Use
  dropped : Use

unfoldable pub uses : List Use → State → State
unfolding open_queue close
uses [] s = s
uses (opened o ∷ rest) s = let (_, s') = open_queue o s in uses rest s'
uses (dropped ∷ rest) s = uses rest (close s)
