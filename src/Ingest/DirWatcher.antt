-- ===== src/Ingest/DirWatcher.antt =====
-- src/ingest/dir_watcher.cpp: the queue of claimed files. What the system calls return is data: whether
-- inotify and the event descriptor could be set up, the entries that a scan lists, what `poll` and
-- `read` give, and whether `rename` moves a file, which it does not where another watcher has. Where
-- the list of polls is at its end, `next_file` is still waiting. The log lines are left out.
pub mod Claims
pub mod Descriptors
use cdr_processor.Base.{
  ◌||◌, ℕ, Bool, true, false, ◌&&◌, not, Option, none, some, List, [], ◌∷◌, ◌++◌, Bytes,
  if◌then◌else◌,
}

-- One entry that a scan lists: its name, whether it is a regular file, and whether `rename` would
-- move it.
pub record Entry : Type 0 where
  pub name : Bytes
  pub is_regular : Bool
  pub renamed : Bool

-- One `inotify_event`, of a name where its length is positive.
pub record Event : Type 0 where
  pub name : Bytes
  pub has_name : Bool
  pub is_dir : Bool
  pub renamed : Bool

-- What `poll` returns, with what is then read.
pub data Poll : Type 0 where
  interrupted : Poll
  poll_failed : Poll
  woken : Poll
  spurious : Poll
  read_failed : Poll
  arrived : List Event → Poll

-- `m_queue`, by the names of the files, all in the target directory, and whether `m_fd` is open.
pub record DirWatcher : Type 0 where
  pub queue : List Bytes
  pub ready : Bool

-- What the constructor finds: the scan of a directory is nothing where it fails.
pub record Setup : Type 0 where
  pub dirs : Bool
  pub inotify : Bool
  pub watched : Bool
  pub eventfd : Bool
  pub target : Option (List Entry)
  pub source : Option (List Entry)

-- `claim`: the queue after it, and whether the file was claimed.
unfoldable pub claim : Bytes → Bool → List Bytes → Bool × List Bytes
claim name renamed queue = if not renamed then (false, queue) else (true, queue ++ name ∷ [])

-- The loop of `sweep`.
unfoldable pub sweep_entries : Bool → List Entry → List Bytes → List Bytes
unfolding claim
sweep_entries claimed [] queue = queue
sweep_entries claimed (e ∷ es) queue =
    let (_, after) = claim e.name e.renamed queue in
    let queue' : List Bytes =
      if not e.is_regular then queue else if claimed then queue ++ e.name ∷ [] else after in
    sweep_entries claimed es queue'

-- `sweep`
unfoldable pub sweep : Bool → Option (List Entry) → List Bytes → List Bytes
unfolding sweep_entries
sweep claimed none queue = queue
sweep claimed (some entries) queue = sweep_entries claimed entries queue

-- The constructor.
unfoldable pub new_watcher : Setup → DirWatcher
unfolding sweep
new_watcher s =
    if not s.dirs || not s.inotify || not s.watched || not s.eventfd
    then record { queue = []; ready = false }
    else record { queue = sweep false s.source (sweep true s.target []); ready = true }

-- The loop of `read_events` over the events of one read.
unfoldable pub claim_events : List Event → List Bytes → List Bytes
unfolding claim
claim_events [] queue = queue
claim_events (e ∷ es) queue =
    let (_, after) = claim e.name e.renamed queue in
    let queue' : List Bytes = if e.has_name && not e.is_dir then after else queue in
    claim_events es queue'

-- `read_events`
unfoldable pub read_events : Poll → List Bytes → Bool × List Bytes
unfolding claim_events
read_events interrupted queue = (true, queue)
read_events poll_failed queue = (false, queue)
read_events woken queue = (false, queue)
read_events spurious queue = (true, queue)
read_events read_failed queue = (false, queue)
read_events (arrived es) queue = (true, claim_events es queue)

-- The loop of `next_file`: the file, where there is one, and the polls that are left.
unfoldable pub wait_file : List Poll → List Bytes → Option (Option Bytes × List Bytes × List Poll)
unfolding read_events
wait_file polls (name ∷ queue) = some (some name, queue, polls)
wait_file [] [] = none
wait_file (p ∷ ps) [] =
    let (on, queue) = read_events p [] in
    let rest = wait_file ps queue in if on then rest else some (none, queue, ps)

-- `next_file`
unfoldable pub next_file : List Poll → DirWatcher → Option (Option Bytes × DirWatcher × List Poll)
unfolding wait_file
next_file polls w =
    let go : Option (Option Bytes × DirWatcher × List Poll) = elim (wait_file polls w.queue) [
      | none ↦ none
      | some (file, queue, rest) ↦ some (file, record w { queue = queue }, rest)
    ] in
    if not w.ready then some (none, w, polls) else go

-- The loop of `FileIngestor::feed` (src/ingest/file_ingestor.cpp), by what each of its tests finds in
-- `m_stop`: the files that it submits, in order.
unfoldable pub feed : List Bool → List Poll → DirWatcher → List Bytes
unfolding next_file
feed [] polls w = []
feed (stop ∷ stops) polls w =
    let submitted : List Bytes = elim (next_file polls w) [
      | none ↦ []
      | some (file, w', rest) ↦ elim file [ none ↦ [] | some name ↦ name ∷ feed stops rest w' ]
    ] in
    if stop then [] else submitted
