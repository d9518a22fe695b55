-- ===== src/Query/Params/Pages.antt =====
-- What parameters and pages promise: src/query/query_params.cpp and inc/query/query_params.hpp.
use cdr_processor.Base.{
  ℕ, zero, suc, ◌+◌, ◌-◌, ◌*◌, ◌≤◌, ◌<◌, ◌≡◌, ◌==◌, min, List, [], ◌++◌, arith, Bytes, length,
  length-take, length-drop, drop_all, take_all, drop-drop, take-append-drop, take, drop,
  if◌then◌else◌,
}
use cdr_processor.Query.Params.{QueryParams, params, parse_params, page}

-- The limit of an accepted request never exceeds the cap.
pub parse_params-limit :
    (param : Bytes → Bytes) (fallback cap : ℕ) {q : QueryParams}
    → parse_params param fallback cap ≡ params q
    → q.limit ≤ cap
unfolding parse_params
parse_params-limit param fallback cap {q} h = ground arith

-- A page has as many entries as are left behind the offset, but no more than a limit above 0.
pub length-page :
    {A : Type 0} (all : List A) (q : QueryParams)
    → length (page all q)
      ≡ (if q.limit == 0 then length all - q.offset else min q.limit (length all - q.offset))
unfolding page
length-page all q = ground (
  arith,
  length-drop q.offset all,
  length-take (length all - q.offset) (drop q.offset all),
  length-take (min q.limit (length all - q.offset)) (drop q.offset all),
)

page-take :
    {A : Type 0} (all : List A) (q : QueryParams)
    → 0 < q.limit
    → page all q ≡ take q.limit (drop q.offset all)
unfolding page
page-take all q pos = ground (
  arith,
  drop_all q.offset all,
  length-drop q.offset all,
  take_all q.limit (drop q.offset all),
  take_all (length all - q.offset) (drop q.offset all),
)

abbrev pub at : QueryParams → ℕ → QueryParams
at q offset = record q { offset = offset }

-- The pages of one limit above 0, from an offset on.
pub pages {ℓ} : {A : Type ℓ} → ℕ → List A → QueryParams → List A
pages zero all q = []
pages (suc n) all q = page all q ++ pages n all (at q (q.offset + q.limit))

-- Pages of one limit above 0, as many as reach the end, taken at one offset after another, tile the listing: together they are
-- every entry from the first offset on, each once and in order.
pub pages-tile :
    {A : Type 0} (n : ℕ) (all : List A) (q : QueryParams)
    → 0 < q.limit
    → length all ≤ q.offset + n * q.limit
    → pages n all q ≡ drop q.offset all
unfolding pages
pages-tile zero all q pos h = ground (arith, drop_all q.offset all)
pages-tile (suc n) all q pos h = ground (
  arith,
  page-take all q pos,
  pages-tile n all (at q (q.offset + q.limit)),
  drop-drop q.offset q.limit all,
  take-append-drop q.limit (drop q.offset all),
)
