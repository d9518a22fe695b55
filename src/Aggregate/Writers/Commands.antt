-- ===== src/Aggregate/Writers/Commands.antt =====
-- What the writers of src/aggregate send to the store, whatever the store answers.
use cdr_processor.Base.{
  ℕ, ◌≡◌, refl, ◌==◌, Bool, true, ◌&&◌, List, [], ◌∷◌, ◌++◌, arith, Bytes, if◌then◌else◌,
}
use cdr_processor.Store.{IStore}
use cdr_processor.Aggregate.Totals.{Totals}
use cdr_processor.Aggregate.Delta.{Delta}
use cdr_processor.Aggregate.Writers.{
  Addition, sub_additions, op_additions, link_additions, totals_additions, sub_scores, op_scores,
  for_each, add, add_all, write_delta, write_totals, write_ranks,
}

pub data Command : Type 0 where
  increment : Bytes → Bytes → ℕ → Command
  rank : Bytes → Bytes → ℕ → Command
  mark : Bytes → ℕ → Command
  flush : Command

module _ {S : Type 0} (store : IStore S) where
  abbrev pub call : Command → S → Bool × S
  call (increment key field value) s = store.increment key field value s
  call (rank board member value) s = store.rank board member value s
  call (mark source seq) s = store.mark source seq s
  call flush s = store.flush s

  -- The calls one after another, and whether all of them succeeded.
  abbrev pub send_all : List Command → S → Bool × S
  send_all [] s = (true, s)
  send_all (c ∷ cs) s =
      let (done, s₁) = call c s in let (rest, s₂) = send_all cs s₁ in (done && rest, s₂)

  pub send_all-append :
      (cs bs : List Command) (s : S)
      → send_all (cs ++ bs) s
        ≡ (let (done, s₁) = send_all cs s in let (rest, s₂) = send_all bs s₁ in (done && rest, s₂))
  send_all-append [] bs s = refl
  send_all-append (c ∷ cs) bs s = ground (arith, send_all-append cs bs (call c s).1)

-- The commands for the additions that are not 0.
unfoldable pub commands : (Bytes → Bytes → ℕ → Command) → List Addition → List Command
commands make [] = []
commands make ((key, field, value) ∷ rest) =
    if value == 0 then commands make rest else make key field value ∷ commands make rest

unfoldable pub delta_commands : Delta → List Command
delta_commands delta =
    commands increment (for_each sub_additions delta.subs)
    ++ (commands increment (for_each op_additions delta.ops)
        ++ commands increment (for_each link_additions delta.links))

unfoldable pub rank_commands : Delta → List Command
rank_commands delta =
    commands rank (for_each sub_scores delta.subs) ++ commands rank (for_each op_scores delta.ops)

unfoldable pub totals_commands : Totals → List Command
totals_commands t = commands increment (totals_additions t)

module _ {S : Type 0} (store : IStore S) where
  add_all-sends :
      (make : Bytes → Bytes → ℕ → Command) (adds : List Addition) (ok : Bool) (s : S)
      → add_all (λ key field value. call store (make key field value)) adds ok s
        ≡ (let (sent, s') = send_all store (commands make adds) s in (sent && ok, s'))
  unfolding add_all add commands
  add_all-sends make [] ok s = refl
  add_all-sends make ((key, field, value) ∷ rest) ok s =
      let p = call store (make key field value) s in
      ground (arith, add_all-sends make rest (p.0 && ok) p.1, add_all-sends make rest ok s)

  -- Writing a delta calls `increment` for each counter that is not 0, in the order of the maps, and
  -- then flushes, also after a call that failed; it succeeds exactly if all those calls did.
  pub write_delta-sends :
      (delta : Delta) (s : S)
      → write_delta store delta s ≡ send_all store (delta_commands delta ++ flush ∷ []) s
  unfolding write_delta delta_commands
  write_delta-sends delta s =
      let subs = for_each sub_additions delta.subs in
      let ops = for_each op_additions delta.ops in
      let links = for_each link_additions delta.links in
      let p = send_all store (commands increment subs) s in
      let q = send_all store (commands increment ops) p.1 in
      let r = send_all store (commands increment links) q.1 in
      ground (
        arith,
        add_all-sends increment subs true s,
        add_all-sends increment ops p.0 p.1,
        add_all-sends increment links (q.0 && p.0) q.1,
        send_all-append store (delta_commands delta) (flush ∷ []) s,
        send_all-append store (commands increment subs)
            (commands increment ops ++ commands increment links) s,
        send_all-append store (commands increment ops) (commands increment links) p.1,
      )

  -- Writing totals calls `increment` for each counter that is not 0, in the order of the counters, also
  -- after a call that failed, and does not flush; it succeeds exactly if all those calls did.
  pub write_totals-sends :
      (t : Totals) (s : S) → write_totals store t s ≡ send_all store (totals_commands t) s
  unfolding write_totals totals_commands
  write_totals-sends t s = ground (arith, add_all-sends increment (totals_additions t) true s)

  -- Writing the boards calls `rank` for each score that is not 0, subscribers before operators, also
  -- after a call that failed, and does not flush; it succeeds exactly if all those calls did.
  pub write_ranks-sends :
      (delta : Delta) (s : S) → write_ranks store delta s ≡ send_all store (rank_commands delta) s
  unfolding write_ranks rank_commands
  write_ranks-sends delta s =
      let subs = for_each sub_scores delta.subs in
      let ops = for_each op_scores delta.ops in
      let p = send_all store (commands rank subs) s in
      ground (
        arith,
        add_all-sends rank subs true s,
        add_all-sends rank ops p.0 p.1,
        send_all-append store (commands rank subs) (commands rank ops) s,
      )
