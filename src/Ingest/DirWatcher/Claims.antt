-- ===== src/Ingest/DirWatcher/Claims.antt =====
-- Which files src/ingest/dir_watcher.cpp hands out.
use cdr_processor.Base.{
  arith, ◌≡◌, refl, sym, ◌∙◌, ap, Bool, true, false, Bool-cases, Option-cases, ◌&&◌, ◌||◌, not,
  Option, none, some, List, [], ◌∷◌, ◌++◌, append_assoc, append-nil, Bytes, if◌then◌else◌, inl, inr,
}
use cdr_processor.Ingest.DirWatcher.{
  Entry, Event, Poll, interrupted, poll_failed, woken, spurious, read_failed, arrived, DirWatcher,
  Setup, claim, sweep_entries, sweep, new_watcher, claim_events, read_events, wait_file, next_file,
  feed,
}

-- The files of a scan: all the regular ones where they are claimed already, else those that are moved.
unfoldable pub swept : Bool → List Entry → List Bytes
swept claimed [] = []
swept claimed (e ∷ es) =
    let rest = swept claimed es in
    if e.is_regular && (claimed || e.renamed) then e.name ∷ rest else rest

-- The files that events tell of and that are moved.
unfoldable pub claims : List Event → List Bytes
claims [] = []
claims (e ∷ es) =
    let rest = claims es in if e.has_name && not e.is_dir && e.renamed then e.name ∷ rest else rest

unfoldable pub all_claims : List Poll → List Bytes
unfolding claims
all_claims [] = []
all_claims (arrived es ∷ ps) = claims es ++ all_claims ps
all_claims (interrupted ∷ ps) = all_claims ps
all_claims (poll_failed ∷ ps) = all_claims ps
all_claims (woken ∷ ps) = all_claims ps
all_claims (spurious ∷ ps) = all_claims ps
all_claims (read_failed ∷ ps) = all_claims ps

-- A scan that failed lists nothing.
abbrev pub scanned : Bool → Option (List Entry) → List Bytes
scanned claimed none = []
scanned claimed (some es) = swept claimed es

-- What one entry of a scan does to the queue.
sweep_one :
    (regular claimed renamed : Bool) (name : Bytes) (queue rest : List Bytes)
    → (if not regular
          then queue
          else if claimed
          then queue ++ name ∷ []
          else (claim name renamed queue).1)
        ++ rest
      ≡ queue ++ (if regular && (claimed || renamed) then name ∷ rest else rest)
unfolding claim
sweep_one false claimed renamed name queue rest = refl
sweep_one true true renamed name queue rest = append_assoc queue (name ∷ []) rest
sweep_one true false true name queue rest = append_assoc queue (name ∷ []) rest
sweep_one true false false name queue rest = refl

sweep_entries-swept :
    (claimed : Bool) (es : List Entry) (queue : List Bytes)
    → sweep_entries claimed es queue ≡ queue ++ swept claimed es
unfolding sweep_entries swept
sweep_entries-swept claimed [] queue = sym (append-nil queue)
sweep_entries-swept claimed (e ∷ es) queue =
    sweep_entries-swept claimed es _
    ∙ sweep_one e.is_regular claimed e.renamed e.name queue (swept claimed es)

sweep-scanned :
    (claimed : Bool) (es : Option (List Entry)) (queue : List Bytes)
    → sweep claimed es queue ≡ queue ++ scanned claimed es
unfolding sweep
sweep-scanned claimed none queue = sym (append-nil queue)
sweep-scanned claimed (some es) queue = sweep_entries-swept claimed es queue

-- What one event does to it.
event_one :
    (has_name is_dir renamed : Bool) (name : Bytes) (queue rest : List Bytes)
    → (if has_name && not is_dir then (claim name renamed queue).1 else queue) ++ rest
      ≡ queue ++ (if has_name && not is_dir && renamed then name ∷ rest else rest)
unfolding claim
event_one false is_dir renamed name queue rest = refl
event_one true true renamed name queue rest = refl
event_one true false true name queue rest = append_assoc queue (name ∷ []) rest
event_one true false false name queue rest = refl

claim_events-claims :
    (es : List Event) (queue : List Bytes) → claim_events es queue ≡ queue ++ claims es
unfolding claim_events claims
claim_events-claims [] queue = sym (append-nil queue)
claim_events-claims (e ∷ es) queue =
    claim_events-claims es _ ∙ event_one e.has_name e.is_dir e.renamed e.name queue (claims es)

-- A file that `next_file` gives is the first of those queued and still to be claimed.
wait_file-claims :
    (polls : List Poll) (queue : List Bytes) {name : Bytes} {queue' : List Bytes} {rest : List Poll}
    → wait_file polls queue ≡ some (some name, queue', rest)
    → queue ++ all_claims polls ≡ name ∷ (queue' ++ all_claims rest)
unfolding wait_file all_claims read_events
wait_file-claims polls (first ∷ queue) h = cc
wait_file-claims [] [] h = cc
wait_file-claims (interrupted ∷ ps) [] h = wait_file-claims ps [] h
wait_file-claims (poll_failed ∷ ps) [] h = cc
wait_file-claims (woken ∷ ps) [] h = cc
wait_file-claims (spurious ∷ ps) [] h = wait_file-claims ps [] h
wait_file-claims (read_failed ∷ ps) [] h = cc
wait_file-claims (arrived es ∷ ps) [] h =
    ap (λ q. q ++ all_claims ps) (sym (claim_events-claims es []))
    ∙ wait_file-claims ps (claim_events es []) h

next_file-claims :
    (polls : List Poll) (w : DirWatcher) {name : Bytes} {w' : DirWatcher} {rest : List Poll}
    → next_file polls w ≡ some (some name, w', rest)
    → w.queue ++ all_claims polls ≡ name ∷ (w'.queue ++ all_claims rest)
unfolding next_file
next_file-claims polls w h = elim (Bool-cases w.ready) [
  | inr e ↦ ground (arith, e)
  | inl e ↦ elim (Option-cases (wait_file polls w.queue)) [
    | inl f ↦ ground (arith, e, f)
    | inr ((none, queue, rest), f) ↦ ground (arith, e, f)
    | inr ((some name, queue, rest), f) ↦ wait_file-claims polls w.queue (ground (arith, e, f))
  ]
]

feed-claims :
    (stops : List Bool) (polls : List Poll) (w : DirWatcher)
    → (rest : List Bytes) × (w.queue ++ all_claims polls ≡ feed stops polls w ++ rest)
unfolding feed
feed-claims [] polls w = (_, refl)
feed-claims (true ∷ stops) polls w = (_, refl)
feed-claims (false ∷ stops) polls w = elim (Option-cases (next_file polls w)) [
  | inl e ↦ rw (feed, e) (_, refl)
  | inr ((none, w', left), e) ↦ rw (feed, e) (_, refl)
  | inr ((some name, w', left), e) ↦
      let (rest, same) = feed-claims stops left w' in
      rw (feed, e) (rest, next_file-claims polls w e ∙ ap (λ ns. name ∷ ns) same)
]

-- A watcher that could not be set up gives no file.
feed_unready :
    (stops : List Bool) (polls : List Poll)
    → feed stops polls (record { queue = []; ready = false }) ≡ []
unfolding feed next_file
feed_unready [] polls = refl
feed_unready (true ∷ stops) polls = refl
feed_unready (false ∷ stops) polls = refl

-- The files submitted for processing, over any sequence of polls, are the first of these, in their
-- order and each once: those left in the target directory by an earlier run, those found in the
-- source directory at the start, and those that events told of later, all as far as they were moved.
pub feed-swept :
    (s : Setup) (stops : List Bool) (polls : List Poll)
    → (rest : List Bytes) × (scanned true s.target ++ scanned false s.source ++ all_claims polls
        ≡ feed stops polls (new_watcher s) ++ rest)
unfolding new_watcher
feed-swept s stops polls =
    elim (Bool-cases (not s.dirs || not s.inotify || not s.watched || not s.eventfd)) [
      | inl e ↦ rw (new_watcher, e) (rw (feed_unready stops polls) (_, refl))
      | inr e ↦
          let queue = sweep false s.source (sweep true s.target []) in
          let w : DirWatcher = record { queue = queue; ready = true } in
          let swept_both : queue ≡ scanned true s.target ++ scanned false s.source =
            sweep-scanned false s.source (sweep true s.target [])
            ∙ ap (λ q. q ++ scanned false s.source) (sweep-scanned true s.target []) in
          let (rest, same) = feed-claims stops polls w in
          rw (new_watcher, e) (rest, ap (λ q. q ++ all_claims polls) (sym swept_both) ∙ same)
    ]
