-- ===== src/Source/Rabbit/Batches.antt =====
-- One call of `RabbitSource::next` (src/source/rabbit_source.cpp).
use cdr_processor.Base.{
  ℕ, suc, ◌+◌, ◌≤◌, ◌≡◌, refl, sym, ◌∙◌, ap, ltb, true, Bool-cases, Option-cases, ◌⊎◌, inl, inr,
  ◌&&◌, not, Option, none, some, List, [], ◌∷◌, ◌++◌, append_assoc, append-nil, map, Bytes, length,
  length-append, arith,
}
use cdr_processor.Record.{CdrRecord}
use cdr_processor.Source.Rabbit.{
  Message, Delivery, message, timeout, lost, Status, fail, RabbitSource, batch_size, take_message,
  ended, fill, next,
}

-- The tag of the last message, where there is one.
unfoldable pub last_tag_of : ℕ → List Message → ℕ
last_tag_of t [] = t
last_tag_of t (m ∷ ms) = last_tag_of m.tag ms

-- What stands behind the messages that a call took.
abbrev pub Rest : Status → List Delivery → List Delivery → Type 0
Rest fail tail rest = tail ≡ lost ∷ rest
Rest _ tail rest = (tail ≡ rest) ⊎ (tail ≡ timeout ∷ rest)

abbrev pub messages : List Message → List Delivery
messages = map (λ m. message m)

module _ (parse : Bytes → Option CdrRecord) where
  -- The records of messages, in order; those that do not parse give none.
  unfoldable pub records_of : List Message → List CdrRecord
  records_of [] = []
  records_of (m ∷ ms) = elim (parse m.body) [ none ↦ records_of ms | some r ↦ r ∷ records_of ms ]

  unfoldable pub rejects_of : List Message → ℕ
  rejects_of [] = 0
  rejects_of (m ∷ ms) = elim (parse m.body) [ none ↦ suc (rejects_of ms) | some r ↦ rejects_of ms ]

  -- A call that returned, by the messages that it took.
  pub record Takes (s : RabbitSource) (out : List CdrRecord) (ds : List Delivery) (status : Status)
      (out' : List CdrRecord) (s' : RabbitSource) (rest : List Delivery) : Type 0 where
    pub taken : List Message
    pub tail : List Delivery
    pub split : ds ≡ messages taken ++ tail
    pub behind : Rest status tail rest
    pub reason : (status ≡ fail) ⊎ (status ≡ ended s)
    pub batch : out' ≡ out ++ records_of taken
    pub tag : s'.last_tag ≡ last_tag_of s.last_tag taken
    pub parsed : s'.parsed ≡ s.parsed + length (records_of taken)
    pub rejected : s'.rejected ≡ s.rejected + rejects_of taken
    pub stop : s'.stop ≡ s.stop
    pub full : length out' ≤ batch_size

  nothing-Takes :
      (status : Status) (out : List CdrRecord) (s : RabbitSource) (ds rest : List Delivery)
      → (status ≡ fail) ⊎ (status ≡ ended s)
      → Rest status ds rest
      → length out ≤ batch_size
      → Takes s out ds status out s rest
  unfolding records_of rejects_of last_tag_of
  nothing-Takes status out s ds rest reason behind full = record {
    taken = [];
    tail = ds;
    split = refl;
    behind = behind;
    reason = reason;
    batch = sym (append-nil out);
    tag = refl;
    parsed = omega arith;
    rejected = omega arith;
    stop = refl;
    full = full;
  }

  ended-Takes :
      (out : List CdrRecord) (s : RabbitSource) (ds rest : List Delivery)
      → (ds ≡ rest) ⊎ (ds ≡ timeout ∷ rest)
      → length out ≤ batch_size
      → Takes s out ds (ended s) out s rest
  ended-Takes out s ds rest behind full =
      let is_behind : Rest (ended s) ds rest = elim (Bool-cases s.stop) [
        | inl e ↦ rw e behind
        | inr e ↦ rw e behind
      ] in
      nothing-Takes (ended s) out s ds rest (inr refl) is_behind full

  take_message-cases :
      (msg : Message) (out : List CdrRecord) (s : RabbitSource)
      → ((parse msg.body ≡ none)
          × (take_message parse msg out s
              ≡ (out, record s { rejected = s.rejected + 1; last_tag = msg.tag })))
        ⊎ ((r : CdrRecord) × (parse msg.body ≡ some r)
            × (take_message parse msg out s
                ≡ (out ++ r ∷ [], record s { parsed = s.parsed + 1; last_tag = msg.tag })))
  unfolding take_message
  take_message-cases msg out s = elim (Option-cases (parse msg.body)) [
    | inl e ↦ inl (e, rw (take_message, e) refl)
    | inr (r, e) ↦ inr (r, e, rw (take_message, e) refl)
  ]

  rejected-Takes :
      (msg : Message) (out : List CdrRecord) (s : RabbitSource) {ds rest : List Delivery}
      {status : Status} {out' : List CdrRecord} {s' : RabbitSource}
      → parse msg.body ≡ none
      → Takes
          (record s { rejected = s.rejected + 1; last_tag = msg.tag })
          out
          ds
          status
          out'
          s'
          rest
      → Takes s out (message msg ∷ ds) status out' s' rest
  unfolding records_of rejects_of last_tag_of
  rejected-Takes msg out s e t = record {
    taken = msg ∷ t.taken;
    tail = t.tail;
    split = ap (λ ds'. message msg ∷ ds') t.split;
    behind = t.behind;
    reason = t.reason;
    batch = t.batch ∙ rw (records_of, e) refl;
    tag = t.tag;
    parsed = t.parsed ∙ rw (records_of, e) refl;
    rejected = ground (arith, e, t.rejected);
    stop = t.stop;
    full = t.full;
  }

  parsed-Takes :
      (msg : Message) (r : CdrRecord) (out : List CdrRecord) (s : RabbitSource)
      {ds rest : List Delivery} {status : Status} {out' : List CdrRecord} {s' : RabbitSource}
      → parse msg.body ≡ some r
      → Takes
          (record s { parsed = s.parsed + 1; last_tag = msg.tag })
          (out ++ r ∷ [])
          ds
          status
          out'
          s'
          rest
      → Takes s out (message msg ∷ ds) status out' s' rest
  unfolding records_of rejects_of last_tag_of
  parsed-Takes msg r out s e t = record {
    taken = msg ∷ t.taken;
    tail = t.tail;
    split = ap (λ ds'. message msg ∷ ds') t.split;
    behind = t.behind;
    reason = t.reason;
    batch = t.batch ∙ rw (records_of, e) (append_assoc out (r ∷ []) (records_of t.taken));
    tag = t.tag;
    parsed = ground (arith, e, t.parsed);
    rejected = t.rejected ∙ rw (rejects_of, e) refl;
    stop = t.stop;
    full = t.full;
  }

  abbrev pub Took :
      RabbitSource
      → List CdrRecord
      → List Delivery
      → Status × List CdrRecord × RabbitSource × List Delivery
      → Type 0
  Took s out ds (status, out', s', rest) = Takes s out ds status out' s' rest

  -- A message is taken only below the batch's size.
  message-Takes :
      (msg : Message) (out : List CdrRecord) (s : RabbitSource)
      → ltb (length out) batch_size ≡ true
      → (let (out1, s1) = take_message parse msg out s in
          (length out1 ≤ batch_size)
          × ((ds : List Delivery) (r : Status × List CdrRecord × RabbitSource × List Delivery)
              → Took s1 out1 ds r
              → Took s out (message msg ∷ ds) r))
  message-Takes msg out s room = elim (take_message-cases msg out s) [
    | inl (e, same) ↦ rw same (ground (arith, room), λ ds r t. rejected-Takes msg out s e t)
    | inr (r, e, same) ↦
        rw same (
          ground (arith, room, length-append out (r ∷ [])),
          λ ds r' t. parsed-Takes msg r out s e t,
        )
  ]

  fill-Took :
      (ds : List Delivery) (out : List CdrRecord) (s : RabbitSource)
      {r : Status × List CdrRecord × RabbitSource × List Delivery}
      → length out ≤ batch_size
      → fill parse ds out s ≡ some r
      → Took s out ds r
  unfolding fill
  fill-Took [] out s {r} full h = elim (Bool-cases (not s.stop && ltb (length out) batch_size)) [
    | inl e ↦ ground (arith, e)
    | inr e ↦
        let same : r ≡ (ended s, out, s, []) = ground (arith, e) in
        rw same (ended-Takes out s [] [] (inl refl) full)
  ]
  fill-Took (message msg ∷ ds) out s {r} full h =
      elim (Bool-cases (not s.stop && ltb (length out) batch_size)) [
        | inl e ↦
            let (small, takes) = message-Takes msg out s (ground (arith, e)) in
            takes ds r (
              fill-Took ds ((take_message parse msg out s).0) ((take_message parse msg out s).1)
                small (ground (arith, e)))
        | inr e ↦
            let same : r ≡ (ended s, out, s, message msg ∷ ds) = ground (arith, e) in
            rw same (ended-Takes out s (message msg ∷ ds) (message msg ∷ ds) (inl refl) full)
      ]
  fill-Took (timeout ∷ ds) out s {r} full h =
      elim (Bool-cases (not s.stop && ltb (length out) batch_size)) [
        | inl e ↦
            let same : r ≡ (ended s, out, s, ds) = ground (arith, e) in
            rw same (ended-Takes out s (timeout ∷ ds) ds (inr refl) full)
        | inr e ↦
            let same : r ≡ (ended s, out, s, timeout ∷ ds) = ground (arith, e) in
            rw same (ended-Takes out s (timeout ∷ ds) (timeout ∷ ds) (inl refl) full)
      ]
  fill-Took (lost ∷ ds) out s {r} full h =
      elim (Bool-cases (not s.stop && ltb (length out) batch_size)) [
        | inl e ↦
            let same : r ≡ (fail, out, s, ds) = ground (arith, e) in
            rw same (nothing-Takes fail out s (lost ∷ ds) ds (inl refl) refl full)
        | inr e ↦
            let same : r ≡ (ended s, out, s, lost ∷ ds) = ground (arith, e) in
            rw same (ended-Takes out s (lost ∷ ds) (lost ∷ ds) (inl refl) full)
      ]

  pub next-Took :
      (s : RabbitSource) (ds : List Delivery)
      {r : Status × List CdrRecord × RabbitSource × List Delivery}
      → next parse s ds ≡ some r
      → Took s [] ds r
  unfolding next
  next-Took s ds h = fill-Took ds [] s (omega arith) h
