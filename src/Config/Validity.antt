-- ===== src/Config/Validity.antt =====
-- What a validated configuration promises (src/config.cpp).
use cdr_processor.Base.{
  All, none, Option-cases, ◌↔◌, ℕ, ◌≡◌, ◌<◌, refl, Bool, true, false, inl, inr, List, [], ◌∷◌, ◌++◌,
  Bytes, codes, text_eq, length, arith,
}
use cdr_processor.Config.{
  Config, Refusal, valid, first_bad, tests, is_level, is_mode, is_positive, is_port, ends_slash,
  with_slash, count_or_cores, filled, validate,
}

-- What the rest of the program relies on.
pub record IsValid (c : Config) : Type 0 where
  pub level : is_level c.level ≡ true
  pub mode : is_mode c.mode ≡ true
  pub format : text_eq c.format (codes "csv") ≡ true
  pub separator : 0 < c.separator
  pub rotation : is_positive c.rotate_seconds ≡ true
  pub readers : 0 < c.readers
  pub ready : ends_slash c.ready_dir ≡ true
  pub process : ends_slash c.process_dir ≡ true
  pub done : ends_slash c.done_dir ≡ true
  pub fail : ends_slash c.fail_dir ≡ true
  pub consumers : 0 < c.consumers
  pub url : 0 < length c.rabbit_url
  pub queue : 0 < length c.rabbit_queue
  pub store : 0 < length c.store_type
  pub host : 0 < length c.redis_host
  pub redis_port : is_port c.redis_port ≡ true
  pub timeout : is_positive c.timeout_ms ≡ true
  pub query_port : is_port c.query_port ≡ true
  pub concurrency : 0 < c.concurrency
  pub hops : 0 < c.max_hops
  pub visits : 0 < c.max_visited

ends_slash-append : (s : Bytes) → ends_slash (s ++ b'/' ∷ []) ≡ true
unfolding ends_slash
ends_slash-append [] = refl
ends_slash-append (c ∷ []) = refl
ends_slash-append (c ∷ d ∷ s) = ends_slash-append (d ∷ s)

ends_slash-with_slash : (s : Bytes) → ends_slash (with_slash s) ≡ true
unfolding with_slash
ends_slash-with_slash s = ground (arith, ends_slash-append s)

with_slash-ends_slash : (s : Bytes) → ends_slash s ≡ true → with_slash s ≡ s
unfolding with_slash
with_slash-ends_slash s h = rw h

ends_slash-length : (s : Bytes) → ends_slash s ≡ true → 0 < length s
unfolding ends_slash
ends_slash-length [] h = cc
ends_slash-length (c ∷ s) h = omega arith

count_or_cores-pos : (cores n : ℕ) → 0 < count_or_cores cores n
unfolding count_or_cores
count_or_cores-pos cores n = ground arith

count_or_cores_kept : (cores n : ℕ) → 0 < n → count_or_cores cores n ≡ n
unfolding count_or_cores
count_or_cores_kept cores n h = ground arith

first_bad-All : (ts : List (Bool × Refusal)) → (first_bad ts ≡ none) ↔ All (λ t. t.0 ≡ false) ts
unfolding first_bad
first_bad-All [] = (λ h. tt, λ h. refl)
first_bad-All ((true, e) ∷ ts) = (λ h. cc, λ h. cc)
first_bad-All ((false, e) ∷ ts) = let (f, g) = first_bad-All ts in (λ h. (refl, f h), λ h. g h.1)

filled-IsValid :
    (cores : ℕ) (c : Config) → All (λ t. t.0 ≡ false) (tests c) → IsValid (filled cores c)
unfolding filled
filled-IsValid cores c h = record {
  level = ground arith;
  mode = ground arith;
  format = ground arith;
  separator = ground arith;
  rotation = ground arith;
  readers = count_or_cores-pos cores c.readers;
  ready = ends_slash-with_slash c.ready_dir;
  process = ends_slash-with_slash c.process_dir;
  done = ends_slash-with_slash c.done_dir;
  fail = ends_slash-with_slash c.fail_dir;
  consumers = count_or_cores-pos cores c.consumers;
  url = ground arith;
  queue = ground arith;
  store = ground arith;
  host = ground arith;
  redis_port = ground arith;
  timeout = ground arith;
  query_port = ground arith;
  concurrency = count_or_cores-pos cores c.concurrency;
  hops = ground arith;
  visits = ground arith;
}

IsValid-All : (c : Config) → IsValid c → All (λ t. t.0 ≡ false) (tests c)
IsValid-All c v = ground (
  arith,
  ends_slash-length c.ready_dir v.ready,
  ends_slash-length c.process_dir v.process,
  ends_slash-length c.done_dir v.done,
  ends_slash-length c.fail_dir v.fail,
)

filled_kept : (cores : ℕ) (c : Config) → IsValid c → filled cores c ≡ c
unfolding filled
filled_kept cores c v = rw (
  with_slash-ends_slash c.ready_dir v.ready,
  with_slash-ends_slash c.process_dir v.process,
  with_slash-ends_slash c.done_dir v.done,
  with_slash-ends_slash c.fail_dir v.fail,
  count_or_cores_kept cores c.readers v.readers,
  count_or_cores_kept cores c.consumers v.consumers,
  count_or_cores_kept cores c.concurrency v.concurrency,
)

validate_kept : (cores : ℕ) (c : Config) → IsValid c → validate cores c ≡ valid c
unfolding validate
validate_kept cores c v =
    let none_bad = (first_bad-All (tests c)).1 (IsValid-All c v) in
    ground (arith, none_bad, filled_kept cores c v)

-- A configuration that `validate` accepts comes out valid: names, ports and times in range, counts
-- above 0, directories with a slash at the end. Validating it again, on a machine with any number of
-- threads, gives it back unchanged.
pub validate-IsValid :
    (cores : ℕ) (c : Config) {c' : Config}
    → validate cores c ≡ valid c'
    → IsValid c' × ((again : ℕ) → validate again c' ≡ valid c')
unfolding validate
validate-IsValid cores c {c'} h = elim (Option-cases (first_bad (tests c))) [
  | inl e ↦
      let good : IsValid (filled cores c) =
        filled-IsValid cores c ((first_bad-All (tests c)).0 e) in
      let same : c' ≡ filled cores c = ground (arith, e) in
      let good' : IsValid c' = rw same good in (good', λ again. validate_kept again c' good')
  | inr (r, e) ↦ ground (arith, e)
]
