-- ===== src/Ingest/Rabbit/Silence.antt =====
-- Sessions of src/ingest/rabbit_ingestor.cpp in which no message parses.
use cdr_processor.Base.{
  ℕ, ◌≡◌, refl, sym, ◌∙◌, ap, Bool, true, false, Option-cases, inl, inr, Option, some, List, [],
  ◌∷◌, ◌++◌, Bytes,
}
use cdr_processor.Record.{CdrRecord}
use cdr_processor.Source.Rabbit.{Delivery, Status, ok, done, fail, RabbitSource, next}
use cdr_processor.Source.Rabbit.Batches.{records_of}
use cdr_processor.Ingest.Rabbit.{serve, after_read}
use cdr_processor.Ingest.Rabbit.Acks.{received, received-append, records_of-append, Used, next-Used}

append-empty {ℓ} : {A : Type ℓ} (xs ys : List A) → xs ++ ys ≡ [] → (xs ≡ []) × (ys ≡ [])
append-empty [] ys h = (refl, h)
append-empty (x ∷ xs) ys h = cc

module _ (parse : Bytes → Option CdrRecord) where
  Used-silent :
      {t t' : ℕ} {ds rest : List Delivery} {batch : List CdrRecord}
      → Used parse t ds batch t' rest
      → records_of parse (received ds) ≡ []
      → (batch ≡ []) × (records_of parse (received rest) ≡ [])
  Used-silent {rest = rest} u h =
      let split =
        ap (λ x. records_of parse (received x)) u.split
        ∙ ap (λ x. records_of parse x) (received-append u.used rest)
        ∙ records_of-append parse (received u.used) (received rest) in
      let (a, b) = append-empty _ _ (sym split ∙ h) in (u.records ∙ a, b)

  read-silent :
      (polls acks : List Bool) (ds : List Delivery) (s s' : RabbitSource) (status : Status)
      (batch : List CdrRecord) (rest : List Delivery)
      → next parse s ds ≡ some (status, batch, s', rest)
      → records_of parse (received ds) ≡ []
      → (records_of parse (received rest) ≡ [] → (serve parse polls acks rest s').events ≡ [])
      → (serve parse (false ∷ polls) acks ds s).events ≡ []
  unfolding serve after_read
  read-silent polls acks ds s s' fail batch rest e h later = rw (serve, e) refl
  read-silent polls acks ds s s' ok batch rest e h later =
      let (none_read, quiet) = Used-silent (next-Used parse s ds (λ x. cc) e) h in
      rw (serve, e, none_read) (later quiet)
  read-silent polls acks ds s s' done batch rest e h later =
      let (none_read, quiet) = Used-silent (next-Used parse s ds (λ x. cc) e) h in
      rw (serve, e, none_read) (later quiet)

  -- On a connection whose messages all fail to parse, nothing goes to the sink and nothing is
  -- acknowledged, however many they are.
  pub serve-silent :
      (polls acks : List Bool) (ds : List Delivery) (s : RabbitSource)
      → records_of parse (received ds) ≡ []
      → (serve parse polls acks ds s).events ≡ []
  unfolding serve
  serve-silent [] acks ds s h = refl
  serve-silent (true ∷ polls) acks ds s h = refl
  serve-silent (false ∷ polls) acks ds s h = elim (Option-cases (next parse s ds)) [
    | inl e ↦ rw (serve, e) refl
    | inr ((status, batch, s', rest), e) ↦
        read-silent polls acks ds s s' status batch rest e h
          (λ quiet. serve-silent polls acks rest s' quiet)
  ]
