-- ===== src/Parser/Split.antt =====
-- `split` of src/parser/csv_parser.cpp cuts a line into its fields.
use cdr_processor.Base.{
  ◌↔◌, ℕ, zero, suc, ◌≡◌, ◌≢◌, refl, Option-cases, inl, inr, some, List, [], ◌∷◌, ◌++◌, arith,
  Bytes, length, All, Lacks, cut_at, cut_at-some, cut_at-none, cut_at-append, cut_at-Lacks,
}
use cdr_processor.Parser.{field_count, split_fields, split}

-- Fields written behind one another with a separator between them.
abbrev pub join : ℕ → List Bytes → Bytes
join sep [] = []
join sep (f ∷ []) = f
join sep (f ∷ g ∷ fs) = f ++ sep ∷ join sep (g ∷ fs)

-- `fields` spell `str`, and none of them holds the separator.
abbrev pub Spells : ℕ → Bytes → List Bytes → Type 0
Spells sep str fields = (join sep fields ≡ str) × All (Lacks sep) fields

join-cons :
    (sep : ℕ) (f : Bytes) (fs : List Bytes) → fs ≢ [] → join sep (f ∷ fs) ≡ f ++ sep ∷ join sep fs
join-cons sep f [] h = absurd (h refl)
join-cons sep f (g ∷ fs) h = refl

split_fields_sound :
    (rounds : ℕ) (rest : Bytes) (sep : ℕ) {fields : List Bytes}
    → split_fields rounds rest sep ≡ some fields
    → (length fields ≡ rounds) × (fields ≢ []) × (join sep fields ≡ rest) × All (Lacks sep) fields
unfolding split_fields
split_fields_sound zero rest sep h = cc
split_fields_sound (suc rounds) rest sep {fields} h = elim (Option-cases (cut_at sep rest)) [
  | inl e ↦ ground (arith, cut_at-none sep rest e)
  | inr ((f, next), e) ↦ elim (Option-cases (split_fields rounds next sep)) [
    | inl e' ↦ ground arith
    | inr (fs, e') ↦
        let (n, full, spell, lack) = split_fields_sound rounds next sep e' in
        let (cut, clean) = cut_at-some sep rest e in ground (arith, join-cons sep f fs full)
  ]
]

split_fields_complete :
    (rounds : ℕ) (sep : ℕ) (fields : List Bytes)
    → length fields ≡ suc rounds
    → All (Lacks sep) fields
    → split_fields (suc rounds) (join sep fields) sep ≡ some fields
unfolding split_fields
split_fields_complete rounds sep [] n h = absurd (omega arith)
split_fields_complete zero sep (f ∷ []) n h = ground (arith, cut_at-Lacks sep f h.0)
split_fields_complete (suc rounds) sep (f ∷ []) n h = absurd (omega arith)
split_fields_complete zero sep (f ∷ g ∷ fs) n h = absurd (omega arith)
split_fields_complete (suc rounds) sep (f ∷ g ∷ fs) n h = ground (
  arith,
  cut_at-append sep f (join sep (g ∷ fs)) h.0,
  split_fields_complete rounds sep (g ∷ fs) (omega arith) h.1,
)

-- A line is split exactly into the twelve fields that spell it: what `split` returns are twelve
-- fields with no separator in them that give the line when joined by it, and every line that is
-- twelve such fields joined is split into them.
pub split_iff :
    (str : Bytes) (sep : ℕ) (fields : List Bytes)
    → (split str sep ≡ some fields) ↔ ((length fields ≡ field_count) × Spells sep str fields)
unfolding split
split_iff str sep fields = (
  λ h. let (n, _, spell, lack) = split_fields_sound field_count str sep h in (n, (spell, lack)),
  λ (n, (spell, lack)). rw (← spell) (split_fields_complete 11 sep fields n lack),
)
