-- ===== src/Source/Rabbit/Returns.antt =====
-- When a call of `RabbitSource::next` (src/source/rabbit_source.cpp) returns.
use cdr_processor.Base.{
  ◌≡◌, ltb, Bool, true, false, Bool-cases, inl, inr, ◌&&◌, not, Option, some, List, [], ◌∷◌, Bytes,
  length, arith,
}
use cdr_processor.Record.{CdrRecord}
use cdr_processor.Source.Rabbit.{
  Delivery, message, timeout, lost, Status, fail, RabbitSource, batch_size, take_message, ended,
  fill, next,
}

-- Whether a delivery ends a batch.
abbrev pub is_message : Delivery → Bool
is_message (message m) = true
is_message timeout = false
is_message lost = false

abbrev pub all_messages : List Delivery → Bool
all_messages [] = true
all_messages (d ∷ ds) = is_message d && all_messages ds

module _ (parse : Bytes → Option CdrRecord) where
  fill_returns :
      (ds : List Delivery) (out : List CdrRecord) (s : RabbitSource)
      → all_messages ds ≡ false
      → (r : Status × List CdrRecord × RabbitSource × List Delivery) × (fill parse ds out s
          ≡ some r)
  unfolding fill
  fill_returns [] out s h = cc
  fill_returns (message msg ∷ ds) out s h =
      elim (Bool-cases (not s.stop && ltb (length out) batch_size)) [
        | inl e ↦
            let (r, same) =
              fill_returns ds ((take_message parse msg out s).0) ((take_message parse msg out s).1)
                h in
            (r, ground (arith, e))
        | inr e ↦ ((ended s, out, s, message msg ∷ ds), ground (arith, e))
      ]
  fill_returns (timeout ∷ ds) out s h =
      elim (Bool-cases (not s.stop && ltb (length out) batch_size)) [
        | inl e ↦ ((ended s, out, s, ds), ground (arith, e))
        | inr e ↦ ((ended s, out, s, timeout ∷ ds), ground (arith, e))
      ]
  fill_returns (lost ∷ ds) out s h = elim (Bool-cases (not s.stop && ltb (length out) batch_size)) [
    | inl e ↦ ((fail, out, s, ds), ground (arith, e))
    | inr e ↦ ((ended s, out, s, lost ∷ ds), ground (arith, e))
  ]

  -- A call of `RabbitSource::next` returns once a delivery times out or the connection is lost.
  pub next_returns :
      (s : RabbitSource) (ds : List Delivery)
      → all_messages ds ≡ false
      → (r : Status × List CdrRecord × RabbitSource × List Delivery) × (next parse s ds ≡ some r)
  unfolding next
  next_returns s ds h = fill_returns ds [] s h
