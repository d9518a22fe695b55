-- ===== src/Util/Registry.antt =====
-- The registries of src/parser/parser_factory.cpp, src/store/store_factory.cpp,
-- src/query/query_factory.cpp and src/ingest/ingestor_factory.cpp, which have one form: creators by
-- name. A creator is a value of a type `C`; the map is an association list.
use cdr_processor.Base.{
  ◌≡◌, refl, sym, ◌∙◌, Bool, true, false, Bool-cases, inl, inr, Option, none, some, List, [], ◌∷◌,
  Bytes, codes, text_eq, text_eq_iff, if◌then◌else◌,
}

module _ {C : Type 0} where
  -- `m_parsers[name] = creator` and the like.
  unfoldable pub register : Bytes → C → List (Bytes × C) → List (Bytes × C)
  register name creator [] = (name, creator) ∷ []
  register name creator ((n, c) ∷ rest) =
      let later = register name creator rest in
      if text_eq n name then (n, creator) ∷ rest else (n, c) ∷ later

  -- `createParser` and the like, up to the call of the creator.
  unfoldable pub creator_of : Bytes → List (Bytes × C) → Option C
  creator_of name [] = none
  creator_of name ((n, c) ∷ rest) = if text_eq n name then some c else creator_of name rest

  -- `hasParser` and the like.
  unfoldable pub has : Bytes → List (Bytes × C) → Bool
  unfolding creator_of
  has name creators = elim (creator_of name creators) [ none ↦ false | some c ↦ true ]

  -- The name registered last is found, and every other as before.
  pub creator_of-register :
      (name other : Bytes) (creator : C) (creators : List (Bytes × C))
      → creator_of other (register name creator creators)
        ≡ (if text_eq name other then some creator else creator_of other creators)
  unfolding register creator_of
  creator_of-register name other creator [] = refl
  creator_of-register name other creator ((n, c) ∷ rest) =
      let later = creator_of-register name other creator rest in
      elim (Bool-cases (text_eq n name)) [
        | inl e ↦
            let same : n ≡ name = (text_eq_iff n name).0 e in
            elim (Bool-cases (text_eq name other)) [
              | inl f ↦ rw (register, e, same, f) refl
              | inr f ↦ rw (register, e, same, f) refl
            ]
        | inr e ↦ elim (Bool-cases (text_eq n other)) [
          | inr f ↦ rw (register, e) (rw f later)
          | inl f ↦
              let found : n ≡ other = (text_eq_iff n other).0 f in
              let apart : text_eq name other ≡ false = elim (Bool-cases (text_eq name other)) [
                | inr g ↦ g
                | inl g ↦
                    let met : n ≡ name = found ∙ sym ((text_eq_iff name other).0 g) in
                    let wrong : text_eq n name ≡ true = (text_eq_iff n name).1 met in cc
              ] in
              rw (register, e) (rw (f, apart) refl)
        ]
      ]

-- What the creators make.
pub data Parser : Type 0 where
  csv_parser : Parser

pub data Store : Type 0 where
  redis_store : Store

pub data Query : Type 0 where
  redis_query : Query

pub data Ingestor : Type 0 where
  file_ingestor rabbit_ingestor : Ingestor

-- The registries as the constructors fill them.
unfoldable pub parsers : List (Bytes × Parser)
unfolding register
parsers = register (codes "csv") csv_parser []

unfoldable pub stores : List (Bytes × Store)
unfolding register
stores = register (codes "redis") redis_store []

unfoldable pub queries : List (Bytes × Query)
unfolding register
queries = register (codes "redis") redis_query []

unfoldable pub ingestors : List (Bytes × Ingestor)
unfolding register
ingestors = register (codes "rabbit") rabbit_ingestor (register (codes "file") file_ingestor [])

-- `createParser`, `createStore`, `createQuery` and `createIngestor`
abbrev pub create_parser : Bytes → Option Parser
create_parser name = creator_of name parsers

abbrev pub create_store : Bytes → Option Store
create_store name = creator_of name stores

abbrev pub create_query : Bytes → Option Query
create_query name = creator_of name queries

abbrev pub create_ingestor : Bytes → Option Ingestor
create_ingestor name = creator_of name ingestors

-- `hasStore`, `hasQuery` and `hasIngestor`
abbrev pub has_store : Bytes → Bool
has_store name = has name stores

abbrev pub has_query : Bytes → Bool
has_query name = has name queries

abbrev pub has_ingestor : Bytes → Bool
has_ingestor name = has name ingestors
