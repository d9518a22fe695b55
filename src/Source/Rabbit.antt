-- ===== src/Source/Rabbit.antt =====
-- src/source/rabbit_source.cpp: the messages of one connection parsed in batches. What the successive
-- calls of `RabbitConn::consume` (src/source/rabbit_conn.cpp) give is a list of deliveries; where the
-- list is at its end, the call in progress has not returned and the result is `none`. `m_stop` is
-- taken as it is when `next` is called. The log lines are left out.
pub mod Batches
pub mod Returns
use cdr_processor.Base.{
  ℕ, suc, ◌+◌, ltb, Bool, true, false, ◌&&◌, ◌||◌, not, Option, none, some, List, [], ◌∷◌, ◌++◌,
  Bytes, length, if◌then◌else◌,
}
use cdr_processor.Record.{CdrRecord}

pub record Message : Type 0 where
  pub tag : ℕ
  pub body : Bytes

-- The status that `consume` returns, with the message of `OK`.
pub data Delivery : Type 0 where
  message : Message → Delivery
  timeout : Delivery
  lost : Delivery

-- `ICdrSource::Status`
pub data Status : Type 0 where
  ok done fail : Status

pub record RabbitSource : Type 0 where
  pub last_tag : ℕ
  pub parsed : ℕ
  pub rejected : ℕ
  pub stop : Bool

-- The constructor.
abbrev pub new_source : RabbitSource
new_source = record { last_tag = 0; parsed = 0; rejected = 0; stop = false }

-- `kRabbitBatchSize`
abbrev pub batch_size : ℕ
batch_size = 4096

-- What the call returns when the loop ends by its test or by a timeout.
abbrev pub ended : RabbitSource → Status
ended s = if s.stop then done else ok

module _ (parse : Bytes → Option CdrRecord) where
  -- What one message does to the batch and the source.
  unfoldable pub take_message :
      Message → List CdrRecord → RabbitSource → List CdrRecord × RabbitSource
  take_message msg out s = elim (parse msg.body) [
    | none ↦ (out, record s { rejected = s.rejected + 1; last_tag = msg.tag })
    | some r ↦ (out ++ r ∷ [], record s { parsed = s.parsed + 1; last_tag = msg.tag })
  ]

  -- The `while` loop of `next`.
  unfoldable pub fill :
      List Delivery
      → List CdrRecord
      → RabbitSource
      → Option (Status × List CdrRecord × RabbitSource × List Delivery)
  fill [] out s =
      if not s.stop && ltb (length out) batch_size then none else some (ended s, out, s, [])
  fill (d ∷ ds) out s =
      let on : Option (Status × List CdrRecord × RabbitSource × List Delivery) = elim d [
        | message msg ↦ let (out', s') = take_message msg out s in fill ds out' s'
        | timeout ↦ some (ended s, out, s, ds)
        | lost ↦ some (fail, out, s, ds)
      ] in
      if not s.stop && ltb (length out) batch_size then on else some (ended s, out, s, d ∷ ds)

  -- `RabbitSource::next`
  unfoldable pub next :
      RabbitSource → List Delivery → Option (Status × List CdrRecord × RabbitSource × List Delivery)
  unfolding fill
  next s ds = fill ds [] s
