-- ===== src/Util/MappedFile.antt =====
-- src/util/mapped_file.cpp: whether a file is mapped, and the bytes that it holds. What the system calls
-- return is data. The log lines are left out.
use cdr_processor.Base.{
  ℕ, ◌+◌, ◌≡◌, arith, true, false, Bool, Option, none, some, [], Bytes, not, length, ◌==◌,
  if◌then◌else◌,
}

-- What `open`, `fstat` and `mmap` give for a file of these bytes.
pub record Mapping : Type 0 where
  pub opened : Bool
  pub stat_ok : Bool
  pub is_regular : Bool
  pub mapped : Bool
  pub bytes : Bytes

-- The constructor: the bytes where `m_ok` is set.
unfoldable pub map_file : Mapping → Option Bytes
map_file m =
    if not m.opened
    then none
    else if not m.stat_ok
    then none
    else if not m.is_regular
    then none
    else if length m.bytes == 0
    then some []
    else if m.mapped
    then some m.bytes
    else none

-- The descriptor that the constructor opens and the mapping that it keeps, with what was given back.
pub record Held : Type 0 where
  pub contents : Option Bytes
  pub ok : Bool
  pub opened : ℕ
  pub closed : ℕ
  pub unmapped : ℕ

-- The constructor, with its descriptor.
unfoldable pub hold_file : Mapping → Held
hold_file m =
    let without : Bool → Held =
      λ ok. record { contents = none; ok = ok; opened = 1; closed = 1; unmapped = 0 } in
    if not m.opened
    then record { contents = none; ok = false; opened = 0; closed = 0; unmapped = 0 }
    else if not m.stat_ok
    then without false
    else if not m.is_regular
    then without false
    else if length m.bytes == 0
    then without true
    else if m.mapped
    then record { contents = some m.bytes; ok = true; opened = 1; closed = 1; unmapped = 0 }
    else without false

-- The destructor.
unfoldable pub release_file : Held → Held
release_file h = elim h.contents [
  | none ↦ h
  | some bytes ↦ record h { contents = none; unmapped = h.unmapped + 1 }
]

-- `MappedFile::size` and `MappedFile::empty`
abbrev pub size : Held → ℕ
size h = elim h.contents [ none ↦ 0 | some bytes ↦ length bytes ]

abbrev pub empty : Held → Bool
empty h = size h == 0

-- `MappedFile::data`, from its start to its size.
abbrev pub bytes_of : Held → Bytes
bytes_of h = elim h.contents [ none ↦ [] | some bytes ↦ bytes ]

-- What the file's bytes are, where the mapping is good: all of them, and the descriptor is closed in
-- every case.
pub hold_file-map_file :
    (m : Mapping)
    → ((hold_file m).closed ≡ (hold_file m).opened)
      × ((release_file (hold_file m)).contents ≡ none)
      × (map_file m ≡ (if (hold_file m).ok then some (bytes_of (hold_file m)) else none))
unfolding hold_file release_file map_file
hold_file-map_file m = ground arith
