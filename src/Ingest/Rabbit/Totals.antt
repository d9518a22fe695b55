-- ===== src/Ingest/Rabbit/Totals.antt =====
-- What one consumer thread of src/ingest/rabbit_ingestor.cpp counts, and the delays that it waits.
use cdr_processor.Base.{
  add64, u64_mod, ◌%◌, ℕ, ◌≡◌, ◌≤◌, refl, sym, ◌∙◌, ap, Bool, true, false, Bool-cases, Option-cases,
  ◌⊎◌, inl, inr, Option, some, List, [], ◌∷◌, ◌++◌, Bytes, All, All-append, arith, subst, length,
  length-append, append_assoc,
}
use cdr_processor.Record.{CdrRecord}
use cdr_processor.Source.Rabbit.{Delivery, Status, ok, done, fail, RabbitSource, new_source, next}
use cdr_processor.Ingest.Backoff.{longer, longer-bounds}
use cdr_processor.Ingest.Rabbit.{
  Event, sunk, acked, waited, Session, serve, after_read, Attempt, Consumer, Place, pass, consume,
  new_consumer, backoff_min, backoff_max, testing, reading, finished,
}
use cdr_processor.Ingest.Rabbit.Acks.{sunk_records}

sunk_records-append :
    (es fs : List Event) → sunk_records (es ++ fs) ≡ sunk_records es ++ sunk_records fs
unfolding sunk_records
sunk_records-append [] fs = refl
sunk_records-append (sunk b ∷ es) fs =
    ap (λ rs. b ++ rs) (sunk_records-append es fs)
    ∙ sym (append_assoc b (sunk_records es) (sunk_records fs))
sunk_records-append (acked t ∷ es) fs = sunk_records-append es fs
sunk_records-append (waited d ∷ es) fs = sunk_records-append es fs

-- A delay is between the least and the longest.
abbrev pub InBounds : Event → Type 0
InBounds (waited d) = (backoff_min ≤ d) × (d ≤ backoff_max)
InBounds _ = Unit

-- The thread's count is that of the records that the sink was given.
abbrev Counts : List Event → ℕ → Type 0
Counts es total = (total ≡ length (sunk_records es) % u64_mod) × All InBounds es

Place-cases : (p : Place) → (p ≡ testing) ⊎ (p ≡ reading) ⊎ (p ≡ finished)
Place-cases testing = inl refl
Place-cases reading = inr (inl refl)
Place-cases finished = inr (inr refl)

module _ (parse : Bytes → Option CdrRecord) where
  after_read-Counts :
      (batch : List CdrRecord) (acks : List Bool) (s : RabbitSource) (go : List Bool → Session)
      → ((acks' : List Bool) → Counts (go acks').events (go acks').total)
      → Counts (after_read batch acks s go).events (after_read batch acks s go).total
  unfolding after_read sunk_records
  after_read-Counts [] acks s go later = later acks
  after_read-Counts (r ∷ rs) [] s go later = (omega (arith, length-append rs []), (tt, (tt, tt)))
  after_read-Counts (r ∷ rs) (true ∷ acks) s go later =
      let (a, b) = later acks in
      (omega (arith, a, length-append rs (sunk_records (go acks).events)), (tt, (tt, b)))
  after_read-Counts (r ∷ rs) (false ∷ acks) s go later =
      (omega (arith, length-append rs []), (tt, (tt, tt)))

  read-Counts :
      (polls acks : List Bool) (ds : List Delivery) (s s' : RabbitSource) (status : Status)
      (batch : List CdrRecord) (rest : List Delivery)
      → next parse s ds ≡ some (status, batch, s', rest)
      → ((a : List Bool)
          → Counts (serve parse polls a rest s').events (serve parse polls a rest s').total)
      → Counts
          (serve parse (false ∷ polls) acks ds s).events
          (serve parse (false ∷ polls) acks ds s).total
  unfolding serve sunk_records
  read-Counts polls acks ds s s' fail batch rest e later = rw (serve, e) (refl, tt)
  read-Counts polls acks ds s s' ok batch rest e later =
      rw (serve, e) (after_read-Counts batch acks s' (λ a. serve parse polls a rest s') later)
  read-Counts polls acks ds s s' done batch rest e later =
      rw (serve, e) (after_read-Counts batch acks s' (λ a. serve parse polls a rest s') later)

  serve-Counts :
      (polls acks : List Bool) (ds : List Delivery) (s : RabbitSource)
      → Counts (serve parse polls acks ds s).events (serve parse polls acks ds s).total
  unfolding serve sunk_records
  serve-Counts [] acks ds s = (refl, tt)
  serve-Counts (true ∷ polls) acks ds s = (refl, tt)
  serve-Counts (false ∷ polls) acks ds s = elim (Option-cases (next parse s ds)) [
    | inl e ↦ rw (serve, e) (refl, tt)
    | inr ((status, batch, s', rest), e) ↦
        read-Counts polls acks ds s s' status batch rest e (λ a. serve-Counts polls a rest s')
  ]

  -- What holds of the thread between two passes.
  abbrev Fine : Consumer → Type 0
  Fine c =
      Counts c.events c.total
      × (c.delay_ms ≤ backoff_max)
      × ((c.delay_ms ≡ 0) ⊎ (backoff_min ≤ c.delay_ms))

  Counts-append :
      (es fs : List Event) {n m : ℕ} → Counts es n → Counts fs m → Counts (es ++ fs) (add64 n m)
  Counts-append es fs (n, a) (m, b) = (
    omega (
      arith,
      n,
      m,
      ap (λ (rs : List CdrRecord). length rs) (sunk_records-append es fs),
      length-append (sunk_records es) (sunk_records fs),
    ),
    All-append InBounds es fs a b,
  )

  pass-Fine : (a : Attempt) (c : Consumer) → Fine c → Fine (pass parse a c)
  unfolding pass sunk_records
  pass-Fine a c (counts, most, least) = elim (Bool-cases a.stop) [
    | inl e ↦ rw (pass, e) (counts, most, least)
    | inr e ↦ elim (Bool-cases a.opened) [
      | inr f ↦
          let d = longer backoff_min backoff_max c.delay_ms in
          let (low, high) = longer-bounds backoff_min backoff_max c.delay_ms (omega arith) least in
          let waits : Counts (waited d ∷ []) 0 = (refl, ((low, high), tt)) in
          let both : Counts (c.events ++ waited d ∷ []) (add64 c.total 0) =
            Counts-append c.events (waited d ∷ []) counts waits in
          let here : Counts (c.events ++ waited d ∷ []) c.total =
            let kept : add64 c.total 0 ≡ c.total = omega (arith, counts.0) in
            subst (Counts (c.events ++ waited d ∷ [])) kept both in
          let c' : Consumer = record c {
            delay_ms = d;
            down = true;
            events = c.events ++ waited d ∷ [];
          } in
          let same : pass parse a c ≡ c' = ground (arith, e, f) in rw same (here, high, inr low)
      | inl f ↦
          let s : Session = serve parse a.polls a.acks a.deliveries new_source in
          let both : Counts (c.events ++ s.events) (add64 c.total s.total) =
            Counts-append c.events s.events counts
              (serve-Counts a.polls a.acks a.deliveries new_source) in
          rw (pass, e, f) (both, omega arith, inl refl)
    ]
  ]

  consume-keeps :
      (attempts : List Attempt) (c : Consumer)
      → Fine c
      → Counts (consume parse attempts c).events (consume parse attempts c).total
  unfolding consume
  consume-keeps [] c h = h.0
  consume-keeps (a ∷ rest) c h = elim (Place-cases c.place) [
    | inl e ↦ rw (consume, e) (consume-keeps rest (pass parse a c) (pass-Fine a c h))
    | inr (inl e) ↦ rw (consume, e) h.0
    | inr (inr e) ↦ rw (consume, e) h.0
  ]

-- A consumer thread counts the records that it has handed to the sink, over all its connections,
-- modulo 2^64, and each delay before it connects again is at least 250 and at most 10000 ms.
pub consume-Counts :
    (parse : Bytes → Option CdrRecord) (attempts : List Attempt)
    → let c = consume parse attempts new_consumer in
      (c.total ≡ length (sunk_records c.events) % u64_mod) × All InBounds c.events
unfolding sunk_records
consume-Counts parse attempts =
    consume-keeps parse attempts new_consumer ((refl, tt), omega arith, inl refl)
