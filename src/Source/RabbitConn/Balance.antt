-- ===== src/Source/RabbitConn/Balance.antt =====
-- What src/source/rabbit_conn.cpp leaves open.
use cdr_processor.Base.{
  ◌||◌, ℕ, ◌+◌, ◌≡◌, refl, Bool, true, false, not, List, [], ◌∷◌, if◌then◌else◌, arith,
}
use cdr_processor.Source.RabbitConn.{
  open_from, Ledger, Outcome, State, new_state, close, open_queue, Use, opened, dropped, uses,
  give_up,
}

abbrev pub one_if : Bool → ℕ
one_if true = 1
one_if false = 0

-- Each connection made has been destroyed but the one that is held, and each channel opened has been
-- closed but the held connection's.
pub record IsBalanced (s : State) : Type 0 where
  pub connections : s.1.made ≡ s.1.destroyed + one_if s.0.connected
  pub channels : s.1.opened ≡ s.1.closed + one_if s.0.channel_open
  pub inside : s.0.connected || not s.0.channel_open ≡ true

abbrev Closed : State → Type 0
Closed s = (s.0.connected ≡ false) × (s.0.channel_open ≡ false)

close-cases :
    (k h : Bool) (l : Ledger)
    → let s : State = (record { connected = k; channel_open = h }, l) in
      IsBalanced s → IsBalanced (close s) × Closed (close s)
unfolding close
close-cases true true l b = (
  record {
    connections = omega (arith, b.connections);
    channels = omega (arith, b.channels);
    inside = refl;
  },
  (refl, refl),
)
close-cases true false l b = (
  record {
    connections = omega (arith, b.connections);
    channels = omega (arith, b.channels);
    inside = refl;
  },
  (refl, refl),
)
close-cases false false l b = (b, (refl, refl))
close-cases false true l b = let wrong : false ≡ true = b.inside in cc

close-IsBalanced : (s : State) → IsBalanced s → IsBalanced (close s) × Closed (close s)
close-IsBalanced (c, l) b = close-cases c.connected c.channel_open l b

-- What `open` promises: the queue is being consumed, or nothing is open.
abbrev Opens : Bool × State → Type 0
Opens (ready, s) = IsBalanced s × (s.0.connected ≡ ready) × (s.0.channel_open ≡ ready)

give_up-Opens : (s : State) → IsBalanced s → Opens (give_up s)
give_up-Opens s b = let (balanced, shut) = close-IsBalanced s b in (balanced, shut.0, shut.1)

-- A connection just made, and one with a channel.
held-IsBalanced :
    (l : Ledger)
    → IsBalanced (record { connected = false; channel_open = false }, l)
    → IsBalanced (record { connected = true; channel_open = false }, record l { made = l.made + 1 })
      × IsBalanced (
        record { connected = true; channel_open = true },
        record l { made = l.made + 1; opened = l.opened + 1 },
      )
held-IsBalanced l b = (
  record {
    connections = omega (arith, b.connections);
    channels = omega (arith, b.channels);
    inside = refl;
  },
  record {
    connections = omega (arith, b.connections);
    channels = omega (arith, b.channels);
    inside = refl;
  },
)

test-Opens : (b : Bool) {r r' : Bool × State} → Opens r → Opens r' → Opens (if b then r else r')
test-Opens true h h' = h
test-Opens false h h' = h'

open_from-Opens :
    (o : Outcome) (l : Ledger)
    → IsBalanced (record { connected = false; channel_open = false }, l)
    → Opens (open_from o (record { connected = false; channel_open = false }, l))
unfolding open_from
open_from-Opens o l b =
    let (held, channel) = held-IsBalanced l b in
    let closed : State = (record { connected = false; channel_open = false }, l) in
    let none_open : Opens (false, closed) = (b, refl, refl) in
    test-Opens (not o.url_parsed) none_open (
      test-Opens (not o.connection_made) none_open (
        test-Opens (not o.socket_made) (give_up-Opens _ held) (
          test-Opens (not o.socket_opened) (give_up-Opens _ held) (
            test-Opens (not o.logged_in) (give_up-Opens _ held) (
              test-Opens (not o.channel_opened) (give_up-Opens _ held) (
                test-Opens (not o.qos_set) (give_up-Opens _ channel) (
                  test-Opens (not o.consuming) (give_up-Opens _ channel)
                    (channel, refl, refl))))))))

open_queue-Opens : (o : Outcome) (s : State) → IsBalanced s → Opens (open_queue o s)
unfolding open_queue
open_queue-Opens o s b =
    let (balanced, (e, f)) = close-IsBalanced s b in
    go (close s).0.connected (close s).0.channel_open (close s).1 e f balanced
  where
    go :
        (k h : Bool) (l : Ledger)
        → k ≡ false
        → h ≡ false
        → IsBalanced (record { connected = k; channel_open = h }, l)
        → Opens (open_from o (record { connected = k; channel_open = h }, l))
    go false false l e f b = open_from-Opens o l b
    go true h l e f b = cc
    go false true l e f b = cc

uses-keep : (us : List Use) (s : State) → IsBalanced s → IsBalanced (uses us s)
unfolding uses
uses-keep [] s b = b
uses-keep (opened o ∷ us) s b = uses-keep us _ (open_queue-Opens o s b).0
uses-keep (dropped ∷ us) s b = uses-keep us _ (close-IsBalanced s b).0

-- Whatever a connection has been used for, each connection that the library made has been destroyed
-- but the one held, and each channel closed but its; then `open` leaves the queue being consumed
-- where it succeeds, and nothing open where a step fails.
pub uses-Opens :
    (us : List Use) (o : Outcome)
    → let s = uses us new_state in
      IsBalanced s
      × IsBalanced (open_queue o s).1
      × ((open_queue o s).1.0.connected ≡ (open_queue o s).0)
      × ((open_queue o s).1.0.channel_open ≡ (open_queue o s).0)
uses-Opens us o =
    let fresh : IsBalanced new_state = record {
      connections = refl;
      channels = refl;
      inside = refl;
    } in
    let balanced = uses-keep us new_state fresh in
    let (b, e, f) = open_queue-Opens o (uses us new_state) balanced in (balanced, b, e, f)
