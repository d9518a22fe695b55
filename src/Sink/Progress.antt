-- ===== src/Sink/Progress.antt =====
-- What a process that can end at any time leaves of the batches of src/sink/aggregate_sink.cpp, on a
-- store that keeps what it is told from one flush to the next.
use cdr_processor.Base.{
  append-nil, append_assoc, zero, suc, inl, inr, ◌⊎◌, take, foldl, All-take, subst, ℕ, refl, ◌≡◌,
  ◌∙◌, ap, sym, List, [], ◌∷◌, ◌++◌, All, Bytes,
}
use cdr_processor.Record.{CdrRecord}
use cdr_processor.Store.{IStore}
use cdr_processor.Aggregate.Totals.{RunTotals, merge, no_totals, add_batch}
use cdr_processor.Aggregate.Writers.Commands.{Command, flush, send_all, send_all-append, call}
use cdr_processor.Sink.{consume, consume_store}
use cdr_processor.Sink.Consume.{batch_commands, consume-sends}
use cdr_processor.Sink.Transaction.{batch_writes, batch_writes-flush}
use cdr_processor.Sink.Apart.{Fair, batch_writes-Fair}
use cdr_processor.Sink.Marked.{marked, batches_writes}
use cdr_processor.Ingest.File.Rising.{Fits}

-- A store whose process can end at any time, by the commands that last in it and those that will
-- last from the next flush on. Calls go from one sound state to the next; the progress that is read
-- is the last mark among the commands, where no other command has its key; and a new process finds
-- what lasts and nothing else.
pub record Durable {S : Type 0} (store : IStore S) (restart : S → S) (source : Bytes) : Type 1 where
  pub sound : S → Type 0
  pub lasting : S → List Command
  pub pending : S → List Command
  pub write_waits :
      (c : Command) (s : S)
      → Fair c
      → sound s
      → sound (call store c s).1
        × (lasting (call store c s).1 ≡ lasting s)
        × (pending (call store c s).1 ≡ pending s ++ c ∷ [])
  pub flush_lasts :
      (s : S)
      → sound s
      → sound (store.flush s).1
        × (lasting (store.flush s).1 ≡ pending s)
        × (pending (store.flush s).1 ≡ pending s)
  pub resume_reads :
      (s : S)
      → sound s
      → All Fair (pending s)
      → ((store.resume_at source s).0 ≡ marked source 0 (pending s))
        × sound (store.resume_at source s).1
        × (lasting (store.resume_at source s).1 ≡ pending s)
        × (pending (store.resume_at source s).1 ≡ pending s)
  pub restart_keeps :
      (s : S)
      → sound s
      → sound (restart s) × (lasting (restart s) ≡ lasting s) × (pending (restart s) ≡ lasting s)

-- The calls of some batches, one batch after another.
unfoldable pub batches_commands : List (List CdrRecord) → Bytes → List Command
batches_commands [] source = []
batches_commands (batch ∷ batches) source =
    batch_commands batch source ++ batches_commands batches source

-- Consuming batches makes these calls.
pub consumed-sends :
    {S : Type 0} (store : IStore S) (source : Bytes) (batches : List (List CdrRecord))
    (run : RunTotals) (s : S)
    → (foldl (λ st batch. consume store batch source st) (run, s) batches).1
      ≡ (send_all store (batches_commands batches source) s).1
unfolding batches_commands consume
consumed-sends store source [] run s = refl
consumed-sends {S = S} store source (batch ∷ batches) run s =
    consumed-sends store source batches (merge run (add_batch no_totals batch))
      (consume_store store batch source s)
    ∙ ap (λ (t : S). (send_all store (batches_commands batches source) t).1)
        (consume-sends store batch source s)
    ∙ sym (
        ap (λ r. r.1)
          (send_all-append store (batch_commands batch source) (batches_commands batches source) s))

-- The calls of a process, of which only so many are made.
take-cases :
    {A : Type 0} (k : ℕ) (xs : List A) (y : A) (ys : List A)
    → (take k (xs ++ y ∷ ys) ≡ take k xs)
      ⊎ ((m : ℕ) × (take k (xs ++ y ∷ ys) ≡ xs ++ y ∷ take m ys))
take-cases zero [] y ys = inl refl
take-cases (suc m) [] y ys = inr (m, refl)
take-cases zero (x ∷ xs) y ys = inl refl
take-cases (suc k) (x ∷ xs) y ys = elim (take-cases k xs y ys) [
  | inl e ↦ inl (ap (◌∷◌ x) e)
  | inr (m, e) ↦ inr (m, ap (◌∷◌ x) e)
]

commands-split :
    (batch : List CdrRecord) (batches : List (List CdrRecord)) (source : Bytes)
    → batches_commands (batch ∷ batches) source
      ≡ batch_writes batch source ++ flush ∷ batches_commands batches source
unfolding batches_commands
commands-split batch batches source =
    ap (λ (cs : List Command). cs ++ batches_commands batches source)
      (batch_writes-flush batch source)
    ∙ append_assoc (batch_writes batch source) (flush ∷ []) (batches_commands batches source)

module _ {S : Type 0} (store : IStore S) (restart : S → S) (source : Bytes)
    (d : Durable store restart source) where
  -- What lasts, and all of what waits.
  abbrev pub At : List Command → S → Type 0
  At cs s = d.sound s × (d.lasting s ≡ cs) × (d.pending s ≡ cs)

  sent-append :
      (cs bs : List Command) (s : S)
      → (send_all store (cs ++ bs) s).1 ≡ (send_all store bs (send_all store cs s).1).1
  sent-append cs bs s = ap (λ r. r.1) (send_all-append store cs bs s)

  -- Writes wait, and nothing more lasts.
  send_all-waits :
      (cs : List Command) (s : S)
      → All Fair cs
      → d.sound s
      → let s' = (send_all store cs s).1 in
        d.sound s' × (d.lasting s' ≡ d.lasting s) × (d.pending s' ≡ d.pending s ++ cs)
  send_all-waits [] s fair h = (h, refl, sym (append-nil (d.pending s)))
  send_all-waits (c ∷ cs) s (f, fair) h =
      let (sound, lasts, waits) = d.write_waits c s f h in
      let (sound', lasts', waits') = send_all-waits cs (call store c s).1 fair sound in
      (
        sound',
        lasts' ∙ lasts,
        waits'
            ∙ ap (λ (bs : List Command). bs ++ cs) waits
            ∙ append_assoc (d.pending s) (c ∷ []) cs,
      )

  batch-At :
      (batch : List CdrRecord) (done : List Command) (s : S)
      → Fits batch
      → At done s
      → At
          (done ++ batch_writes batch source)
          (store.flush (send_all store (batch_writes batch source) s).1).1
  batch-At batch done s fits (h, lasts, waits) =
      let writes = batch_writes batch source in
      let (sound, _, waits') = send_all-waits writes s (batch_writes-Fair batch source fits) h in
      let (sound', lasts'', waits'') = d.flush_lasts (send_all store writes s).1 sound in
      let all = waits' ∙ ap (λ (bs : List Command). bs ++ writes) waits in
      (sound', lasts'' ∙ all, waits'' ∙ all)

  -- Of the calls of some batches only the first ones are made: the batches whose flush is among
  -- them last, and nothing else does.
  pub cut-lasts :
      (k : ℕ) (batches : List (List CdrRecord)) (done : List Command) (s : S)
      → All Fits batches
      → At done s
      → (n : ℕ) × (let s' = (send_all store (take k (batches_commands batches source)) s).1 in
          d.sound s' × (d.lasting s' ≡ done ++ batches_writes (take n batches) source))
  unfolding batches_commands batches_writes
  cut-lasts zero [] done s fits (h, lasts, waits) = (0, (h, lasts ∙ sym (append-nil done)))
  cut-lasts (suc k) [] done s fits (h, lasts, waits) = (0, (h, lasts ∙ sym (append-nil done)))
  cut-lasts k (batch ∷ batches) done s (fit, fits) at =
      let writes = batch_writes batch source in
      let rest = batches_commands batches source in
      let split = ap (take k) (commands-split batch batches source) in
      elim (take-cases k writes flush rest) [
        | inl e ↦
            let fair = batch_writes-Fair batch source fit in
            let (sound, lasts, _) =
              send_all-waits (take k writes) s (All-take Fair k writes fair) at.0 in
            let ends = ap (λ (cs : List Command). (send_all store cs s).1) (split ∙ e) in
            (
              0,
              (
                subst d.sound (sym ends) sound,
                ap d.lasting ends ∙ lasts ∙ at.1 ∙ sym (append-nil done),
              ),
            )
        | inr (m, e) ↦
            let s₁ = (store.flush (send_all store writes s).1).1 in
            let (n, (sound, lasts)) =
              cut-lasts m batches (done ++ writes) s₁ fits (batch-At batch done s fit at) in
            let ends =
              ap (λ (cs : List Command). (send_all store cs s).1) (split ∙ e)
              ∙ sent-append writes (flush ∷ take m rest) s in
            (
              suc n,
              (
                subst d.sound (sym ends) sound,
                ap d.lasting ends
                    ∙ lasts
                    ∙ append_assoc done writes (batches_writes (take n batches) source),
              ),
            )
      ]

  -- Where all of them are made, all batches last.
  pub whole-lasts :
      (batches : List (List CdrRecord)) (done : List Command) (s : S)
      → All Fits batches
      → At done s
      → At
          (done ++ batches_writes batches source)
          (send_all store (batches_commands batches source) s).1
  unfolding batches_commands batches_writes
  whole-lasts [] done s fits (h, lasts, waits) =
      let none = sym (append-nil done) in (h, lasts ∙ none, waits ∙ none)
  whole-lasts (batch ∷ batches) done s (fit, fits) at =
      let writes = batch_writes batch source in
      let rest = batches_commands batches source in
      let s₁ = (store.flush (send_all store writes s).1).1 in
      let (sound, lasts, waits) =
        whole-lasts batches (done ++ writes) s₁ fits (batch-At batch done s fit at) in
      let ends =
        ap (λ (cs : List Command). (send_all store cs s).1) (commands-split batch batches source)
        ∙ sent-append writes (flush ∷ rest) s in
      let order = append_assoc done writes (batches_writes batches source) in
      (
        subst d.sound (sym ends) sound,
        ap d.lasting ends ∙ lasts ∙ order,
        ap d.pending ends ∙ waits ∙ order,
      )
