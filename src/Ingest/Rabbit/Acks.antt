-- ===== src/Ingest/Rabbit/Acks.antt =====
-- What is acknowledged in one session of src/ingest/rabbit_ingestor.cpp.
use cdr_processor.Base.{
  subst, ℕ, ◌≡◌, ◌≢◌, refl, sym, ◌∙◌, ap, Bool, true, false, Option-cases, inl, inr, Option, some,
  List, [], ◌∷◌, ◌++◌, append_assoc, append-nil, Bytes,
}
use cdr_processor.Record.{CdrRecord}
use cdr_processor.Source.Rabbit.{
  Message, Delivery, message, timeout, lost, Status, ok, done, fail, RabbitSource, next,
}
use cdr_processor.Source.Rabbit.Batches.{Rest, records_of, last_tag_of, messages, Takes, next-Took}
use cdr_processor.Ingest.Rabbit.{new_source, after_read, Event, sunk, acked, waited, Session, serve}

-- The messages of deliveries.
unfoldable pub received : List Delivery → List Message
received [] = []
received (message m ∷ ds) = m ∷ received ds
received (timeout ∷ ds) = received ds
received (lost ∷ ds) = received ds

-- The records that the sink was given.
unfoldable pub sunk_records : List Event → List CdrRecord
sunk_records [] = []
sunk_records (sunk batch ∷ es) = batch ++ sunk_records es
sunk_records (acked t ∷ es) = sunk_records es
sunk_records (waited d ∷ es) = sunk_records es

pub received-append : (ds es : List Delivery) → received (ds ++ es) ≡ received ds ++ received es
unfolding received
received-append [] es = refl
received-append (message m ∷ ds) es = ap (λ ms. m ∷ ms) (received-append ds es)
received-append (timeout ∷ ds) es = received-append ds es
received-append (lost ∷ ds) es = received-append ds es

received-messages : (ms : List Message) → received (messages ms) ≡ ms
unfolding received
received-messages [] = refl
received-messages (m ∷ ms) = ap (λ ns. m ∷ ns) (received-messages ms)

last_tag_of-append :
    (t : ℕ) (ms ns : List Message) → last_tag_of t (ms ++ ns) ≡ last_tag_of (last_tag_of t ms) ns
unfolding last_tag_of
last_tag_of-append t [] ns = refl
last_tag_of-append t (m ∷ ms) ns = last_tag_of-append m.tag ms ns

module _ (parse : Bytes → Option CdrRecord) where
  pub records_of-append :
      (ms ns : List Message)
      → records_of parse (ms ++ ns) ≡ records_of parse ms ++ records_of parse ns
  unfolding records_of
  records_of-append [] ns = refl
  records_of-append (m ∷ ms) ns = elim (Option-cases (parse m.body)) [
    | inl e ↦ rw (records_of, e) (records_of-append ms ns)
    | inr (r, e) ↦ rw (records_of, e) (ap (λ rs. r ∷ rs) (records_of-append ms ns))
  ]

  -- How far a call, or several, have come in the deliveries: the records and the last tag of all the
  -- messages up to there.
  pub record Used (t : ℕ) (ds : List Delivery) (batch : List CdrRecord) (t' : ℕ)
      (rest : List Delivery) : Type 0 where
    pub used : List Delivery
    pub split : ds ≡ used ++ rest
    pub records : batch ≡ records_of parse (received used)
    pub tag : t' ≡ last_tag_of t (received used)

  Used-Used :
      {t t1 t2 : ℕ} {ds ds1 ds2 : List Delivery} {b c : List CdrRecord}
      → Used t ds b t1 ds1
      → Used t1 ds1 c t2 ds2
      → Used t ds (b ++ c) t2 ds2
  Used-Used {t} {t1} {t2} {ds} {ds1} {ds2} {b} {c} u v = record {
    used = u.used ++ v.used;
    split = u.split ∙ ap (λ x. u.used ++ x) v.split ∙ sym (append_assoc u.used v.used ds2);
    records =
        let both : b ++ c
            ≡ records_of parse (received u.used) ++ records_of parse (received v.used) =
          cc in
        both
        ∙ sym (records_of-append (received u.used) (received v.used))
        ∙ ap (λ x. records_of parse x) (sym (received-append u.used v.used));
    tag =
        v.tag
        ∙ ap (λ x. last_tag_of x (received v.used)) u.tag
        ∙ sym (last_tag_of-append t (received u.used) (received v.used))
        ∙ ap (λ x. last_tag_of t x) (sym (received-append u.used v.used));
  }

  Rest-used :
      (status : Status) {tail rest : List Delivery}
      → status ≢ fail
      → Rest status tail rest
      → (mid : List Delivery) × (tail ≡ mid ++ rest) × (received mid ≡ [])
  unfolding received
  Rest-used fail n h = absurd (n refl)
  Rest-used ok n (inl e) = ([], e, refl)
  Rest-used ok n (inr e) = (timeout ∷ [], e, refl)
  Rest-used done n (inl e) = ([], e, refl)
  Rest-used done n (inr e) = (timeout ∷ [], e, refl)

  pub next-Used :
      (s : RabbitSource) (ds : List Delivery) {status : Status} {batch : List CdrRecord}
      {s' : RabbitSource} {rest : List Delivery}
      → status ≢ fail
      → next parse s ds ≡ some (status, batch, s', rest)
      → Used s.last_tag ds batch s'.last_tag rest
  next-Used s ds {status} {batch} {s'} {rest} n h =
      let t : Takes parse s [] ds status batch s' rest = next-Took parse s ds h in
      let (mid, e, quiet) = Rest-used status n t.behind in
      let same : received (messages t.taken ++ mid) ≡ t.taken =
        received-append (messages t.taken) mid
        ∙ ap (λ x. received (messages t.taken) ++ x) quiet
        ∙ append-nil (received (messages t.taken))
        ∙ received-messages t.taken in
      record {
        used = messages t.taken ++ mid;
        split =
            t.split
            ∙ ap (λ x. messages t.taken ++ x) e
            ∙ sym (append_assoc (messages t.taken) mid rest);
        records = t.batch ∙ ap (λ x. records_of parse x) (sym same);
        tag = t.tag ∙ ap (λ x. last_tag_of s.last_tag x) (sym same);
      }

  -- What a trace says of an acknowledgement in it.
  abbrev pub Acks : ℕ → List Delivery → List Event → Type 0
  Acks t0 ds es =
      (pre : List Event) (t : ℕ) (post : List Event)
      → es ≡ pre ++ acked t ∷ post
      → (rest : List Delivery) × Used t0 ds (sunk_records pre) t rest

  none-Acks : (t : ℕ) (ds : List Delivery) → Acks t ds []
  none-Acks t ds [] u post e = cc
  none-Acks t ds (p ∷ pre) u post e = cc

  -- A call without records is one with the next.
  later-Acks :
      {t t' : ℕ} {ds rest : List Delivery} {es : List Event}
      → Used t ds [] t' rest
      → Acks t' rest es
      → Acks t ds es
  later-Acks u a pre v post e = let (end, w) = a pre v post e in (end, Used-Used u w)

  batch-Acks :
      {t t' : ℕ} {ds rest : List Delivery} {batch : List CdrRecord} {es : List Event}
      → Used t ds batch t' rest
      → Acks t' rest es
      → Acks t ds (sunk batch ∷ acked t' ∷ es)
  unfolding sunk_records
  batch-Acks u a [] v post e = cc
  batch-Acks {t} {t'} {ds} {rest} {batch} u a (p ∷ []) v post e =
      let first : p ≡ sunk batch = cc in
      let second : v ≡ t' = cc in
      (rest, rw (first, second) (subst (λ b. Used t ds b t' rest) (sym (append-nil batch)) u))
  batch-Acks {t} {t'} {ds} {rest} {batch} {es} u a (p ∷ q ∷ pre) v post e =
      let first : p ≡ sunk batch = cc in
      let second : q ≡ acked t' = cc in
      let (end, w) = a pre v post (cc) in (end, rw (first, second) (Used-Used u w))

  after_read-Acks :
      {t : ℕ} {ds rest : List Delivery} (batch : List CdrRecord) (acks : List Bool)
      (s : RabbitSource) (go : List Bool → Session)
      → Used t ds batch s.last_tag rest
      → ((acks' : List Bool) → Acks s.last_tag rest (go acks').events)
      → Acks t ds (after_read batch acks s go).events
  unfolding after_read
  after_read-Acks [] acks s go u later = later-Acks u (later acks)
  after_read-Acks {t} {ds} {rest} (r ∷ rs) [] s go u later =
      batch-Acks u (none-Acks s.last_tag rest)
  after_read-Acks (r ∷ rs) (true ∷ acks) s go u later = batch-Acks u (later acks)
  after_read-Acks {t} {ds} {rest} (r ∷ rs) (false ∷ acks) s go u later =
      batch-Acks u (none-Acks s.last_tag rest)

  read-Acks :
      (polls acks : List Bool) (ds : List Delivery) (s s' : RabbitSource) (status : Status)
      (batch : List CdrRecord) (rest : List Delivery)
      → next parse s ds ≡ some (status, batch, s', rest)
      → ((acks' : List Bool) → Acks s'.last_tag rest (serve parse polls acks' rest s').events)
      → Acks s.last_tag ds (serve parse (false ∷ polls) acks ds s).events
  unfolding serve
  read-Acks polls acks ds s s' fail batch rest e later = rw (serve, e) (none-Acks s.last_tag ds)
  read-Acks polls acks ds s s' ok batch rest e later =
      rw (serve, e)
        (after_read-Acks batch acks s' (λ a. serve parse polls a rest s')
          (next-Used s ds (λ x. cc) e) later)
  read-Acks polls acks ds s s' done batch rest e later =
      rw (serve, e)
        (after_read-Acks batch acks s' (λ a. serve parse polls a rest s')
          (next-Used s ds (λ x. cc) e) later)

  -- At each acknowledgement in a session, the sink has been given the records of all the messages
  -- received up to some point of the session, in their order, and the tag is the last one's.
  pub serve-Acks :
      (polls acks : List Bool) (ds : List Delivery) (s : RabbitSource)
      → Acks s.last_tag ds (serve parse polls acks ds s).events
  unfolding serve
  serve-Acks [] acks ds s = none-Acks s.last_tag ds
  serve-Acks (true ∷ polls) acks ds s = none-Acks s.last_tag ds
  serve-Acks (false ∷ polls) acks ds s = elim (Option-cases (next parse s ds)) [
    | inl e ↦ rw (serve, e) (none-Acks s.last_tag ds)
    | inr ((status, batch, s', rest), e) ↦
        read-Acks polls acks ds s s' status batch rest e (λ acks'. serve-Acks polls acks' rest s')
  ]

-- At each acknowledgement on a connection, the sink has been given the records of all the messages
-- received on it up to some point, in their order, and the tag is that of the last one.
pub session-acked :
    (parse : Bytes → Option CdrRecord) (polls acks : List Bool) (ds : List Delivery)
    (pre : List Event) (t : ℕ) (post : List Event)
    → (serve parse polls acks ds new_source).events ≡ pre ++ acked t ∷ post
    → (rest : List Delivery) × Used parse 0 ds (sunk_records pre) t rest
session-acked parse polls acks ds pre t post h =
    serve-Acks parse polls acks ds new_source pre t post h
