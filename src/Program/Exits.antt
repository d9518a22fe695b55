-- ===== src/Program/Exits.antt =====
-- How src/processor_main.cpp and src/gateway_main.cpp end.
use cdr_processor.Base.{
  ap, text_eq_iff, Bytes, ℕ, ◌≡◌, ◌⊎◌, inl, inr, refl, Bool, true, false, ◌&&◌, ◌||◌, Option, none,
  some, codes, text_eq, arith, Bool-cases, if◌then◌else◌,
}
use cdr_processor.Config.{Config, valid, validate}
use cdr_processor.Config.Validity.{IsValid, validate-IsValid}
use cdr_processor.Config.{is_mode}
use cdr_processor.Ingest.Lifecycle.{
  new_file_ingestor, new_rabbit_ingestor, start_file, stop_file, start_rabbit, stop_rabbit,
  destroy_file, destroy_rabbit,
}
use cdr_processor.Query.Gateway.Listener.{Listener, Binding, start, stop}
use cdr_processor.Util.Registry.{
  redis_store, creator_of, parsers, stores, queries, ingestors, register,
}
use cdr_processor.Program.{
  file_ingestor, rabbit_ingestor, create_parser, create_ingestor, is_some, create_store,
  AnyIngestor, file, rabbit, Outside, run_ingestor, start_ingestor, stop_ingestor, destroy_ingestor,
  Run, run_processor, run_gateway,
}

-- No thread, of the feeder, of the pool's readers or of the consumers, and no connection.
abbrev pub Threadless : Option AnyIngestor → Type 0
Threadless none = Unit
Threadless (some (file i)) = (i.feeder ≡ false) × (i.pool ≡ false) × (i.running ≡ false)
Threadless (some (rabbit i)) = (i.threads ≡ 0) × (i.conns ≡ 0) × (i.running ≡ false)

abbrev pub Silent : Option Listener → Type 0
Silent none = Unit
Silent (some l) = l.running ≡ false

-- When the ingestor of a mode can start.
abbrev pub can_start : Config → Outside → Bool
can_start c o = text_eq c.mode (codes "rabbit") || (o.watcher_ok && o.dirs_ok)

parser_known : (c : Config) → IsValid c → is_some (create_parser c.format) ≡ true
unfolding creator_of parsers register
parser_known c v =
    ap (λ (n : Bytes). is_some (create_parser n)) ((text_eq_iff c.format (codes "csv")).0 v.format)

-- How a run of the processor ends that could start its ingestor, or could not.
abbrev Ends : Bool → Run AnyIngestor → Type 0
Ends up r =
    Threadless r.left
    × Threadless r.reported
    × (is_some r.reported ≡ up)
    × (r.code ≡ (if up then 0 else 1))

-- What becomes of either ingestor, with the code.
file-cases :
    (c : Config) (o : Outside)
    → is_some (create_parser c.format) ≡ true
    → Ends (o.watcher_ok && o.dirs_ok) (run_ingestor c o (file new_file_ingestor))
unfolding run_ingestor start_ingestor stop_ingestor start_file stop_file destroy_ingestor
    destroy_file
file-cases c o known = elim (Bool-cases o.watcher_ok) [
  | inr p ↦
      rw (run_ingestor, start_ingestor, start_file, known, p) ((refl, refl, refl), tt, refl, refl)
  | inl p ↦ elim (Bool-cases o.dirs_ok) [
    | inr q ↦
        rw (run_ingestor, start_ingestor, start_file, known, p, q)
          ((refl, refl, refl), tt, refl, refl)
    | inl q ↦
        rw (run_ingestor, start_ingestor, start_file, known, p, q)
          ((refl, refl, refl), (refl, refl, refl), refl, refl)
  ]
]

rabbit-cases :
    (c : Config) (o : Outside)
    → is_some (create_parser c.format) ≡ true
    → Ends true (run_ingestor c o (rabbit new_rabbit_ingestor))
unfolding run_ingestor start_ingestor stop_ingestor start_rabbit stop_rabbit destroy_ingestor
    destroy_rabbit
rabbit-cases c o known =
    rw (run_ingestor, start_ingestor, start_rabbit, known)
      ((refl, refl, refl), (refl, refl, refl), refl, refl)

-- The creators by name.
store_by_name :
    (name : Bytes)
    → (text_eq name (codes "redis") ≡ true) × (create_store name ≡ some redis_store)
      ⊎ ((text_eq name (codes "redis") ≡ false) × (create_store name ≡ none))
unfolding creator_of stores register
store_by_name name = elim (Bool-cases (text_eq name (codes "redis"))) [
  | inl e ↦ inl (e, ground (arith, (text_eq_iff name (codes "redis")).0 e))
  | inr e ↦
      inr (e, ground (arith, e, text_eq_iff name (codes "redis"), text_eq_iff (codes "redis") name))
]

ingestor_by_name :
    (mode : Bytes)
    → is_mode mode ≡ true
    → (text_eq mode (codes "rabbit") ≡ true) × (create_ingestor mode ≡ some rabbit_ingestor)
      ⊎ ((text_eq mode (codes "rabbit") ≡ false) × (create_ingestor mode ≡ some file_ingestor))
unfolding creator_of ingestors register
ingestor_by_name mode h = elim (Bool-cases (text_eq mode (codes "rabbit"))) [
  | inl e ↦ inl (e, ap (λ (n : Bytes). create_ingestor n) ((text_eq_iff mode (codes "rabbit")).0 e))
  | inr e ↦
      let named : text_eq mode (codes "file") ≡ true = ground (arith, e, h) in
      inr (e, ap (λ (n : Bytes). create_ingestor n) ((text_eq_iff mode (codes "file")).0 named))
]

processor-cases :
    (c : Config) (o : Outside)
    → IsValid c
    → Ends (text_eq c.store_type (codes "redis") && can_start c o) (run_processor c o)
unfolding run_processor
processor-cases c o v =
    let known = parser_known c v in
    elim (store_by_name c.store_type) [
      | inr (e, f) ↦ rw (run_processor, e, f) (tt, tt, refl, refl)
      | inl (e, f) ↦ elim (ingestor_by_name c.mode v.mode) [
        | inl (p, q) ↦ rw (run_processor, e, f, p, q) (rabbit-cases c o known)
        | inr (p, q) ↦ rw (run_processor, e, f, p, q) (file-cases c o known)
      ]
    ]

gateway-cases :
    (c : Config) (b : Binding)
    → IsValid c
    → let r = run_gateway c b in
      Silent r.left
      × ((r.code ≡ (if text_eq c.store_type (codes "redis") && b.bound then 0 else 1)))
unfolding run_gateway start stop creator_of queries register
gateway-cases c b v = ground (arith, v.query_port)

-- Once its configuration is accepted, the processor ends with the code 0 exactly if the store's type
-- is `redis` and, where it takes files, its watcher and its directories could be set up, else with 1.
-- Exactly where it ends with 0 it logs the totals, and at that time the ingestor has no feeder, no
-- reader of its pool, no consumer thread and no connection any more; on every path, once the
-- destructors ran, it leaves none of these behind. The gateway ends with 0
-- exactly if the store's type is `redis` and its port could be bound, else with 1, and leaves no
-- listener behind.
pub mains-Exits :
    (cores : ℕ) (loaded : Config) (o : Outside) (b : Binding) {c : Config}
    → validate cores loaded ≡ valid c
    → let p = run_processor c o in
      let g = run_gateway c b in
      let known = text_eq c.store_type (codes "redis") in
      (Threadless p.left
        × Threadless p.reported
        × (is_some p.reported ≡ (known && can_start c o))
        × (p.code ≡ (if known && can_start c o then 0 else 1)))
      × (Silent g.left × (g.code ≡ (if known && b.bound then 0 else 1)))
mains-Exits cores loaded o b {c} h =
    let (v, _) = validate-IsValid cores loaded h in (processor-cases c o v, gateway-cases c b v)
