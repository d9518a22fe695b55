-- ===== src/Ingest/DirWatcher/Descriptors.antt =====
-- The descriptors of src/ingest/dir_watcher.cpp: `m_fd` and `m_event_fd`, from the constructor to the
-- destructor, with `ok` and `wake`.
use cdr_processor.Base.{ℕ, ◌+◌, ◌≡◌, Bool, true, false, not, ◌||◌, arith, if◌then◌else◌}
use cdr_processor.Ingest.DirWatcher.{Setup, new_watcher}

-- Which of the two are open, and how many were opened and closed.
pub record Descriptors : Type 0 where
  pub inotify : Bool
  pub event : Bool
  pub opened : ℕ
  pub closed : ℕ

-- The constructor.
unfoldable pub open_descriptors : Setup → Descriptors
open_descriptors s =
    if not s.dirs
    then record { inotify = false; event = false; opened = 0; closed = 0 }
    else if not s.inotify
    then record { inotify = false; event = false; opened = 0; closed = 0 }
    else if not s.watched
    then record { inotify = false; event = false; opened = 1; closed = 1 }
    else if not s.eventfd
    then record { inotify = false; event = false; opened = 1; closed = 1 }
    else record { inotify = true; event = true; opened = 2; closed = 0 }

-- The destructor.
unfoldable pub close_descriptors : Descriptors → Descriptors
close_descriptors d =
    let first = if d.inotify then record d { inotify = false; closed = d.closed + 1 } else d in
    if first.event then record first { event = false; closed = first.closed + 1 } else first

-- `DirWatcher::ok`
abbrev pub ok : Descriptors → Bool
ok d = d.inotify

-- `DirWatcher::wake`: whether it writes to the event descriptor.
abbrev pub wake : Descriptors → Bool
wake d = if not d.event then false else true

-- However far the constructor came: the watcher is usable exactly if it has its queue, a usable one
-- can be woken and no other is written to, and once it is destroyed each descriptor that was opened
-- is closed, once.
pub close_descriptors-open_descriptors :
    (s : Setup)
    → let d = open_descriptors s in
      (ok d ≡ (new_watcher s).ready)
      × (wake d ≡ ok d)
      × ((close_descriptors d).closed ≡ d.opened)
      × (ok (close_descriptors d) || wake (close_descriptors d) ≡ false)
unfolding open_descriptors close_descriptors new_watcher
close_descriptors-open_descriptors s = ground arith
