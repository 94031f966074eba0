-- ===== src/Proxy/Upstream.antt =====
-- src/proxy/upstream.hpp and upstream.cpp: `UpstreamGroup`, the balancing over the peers of an upstream and
-- the connections kept to them. A time is a number of milliseconds; the clock and what a socket says are
-- parameters; each operation runs under the group's mutex, as one step. A connection is its number.
pub mod Pick
pub mod Choice
pub mod Health
pub mod Pool
use starweb.Base.{
  ℕ, zero, suc, ◌+◌, ◌-◌, ◌≤◌, Bool, true, false, not, ◌&&◌, ◌||◌, Option, none, some, List, [],
  ◌∷◌, ◌++◌, if◌then◌else◌, ltb, leb, length, get_elem?, set,
}
use starweb.Base.Bytes.{Bytes, codes, find}
use starweb.Base.Decimal.{to_string}
use starweb.Base.Int.{ℤ, pos, negsuc, ◌+ℤ◌, ◌-ℤ◌, ltb_ℤ, leb_ℤ}
use starweb.Proxy.{Peer, UpstreamConfig}

unfoldable pub peer_name : Peer → Bytes
peer_name peer =
    (elim (find b':' peer.host) [
      | some _ ↦ codes "[" ++ (peer.host ++ codes "]")
      | none ↦ peer.host
    ])
    ++ (codes ":" ++ to_string peer.port)

pub record Idle : Type 0 where
  pub conn : ℕ
  pub since : ℤ

pub record State : Type 0 where
  pub current_weight : ℤ
  pub fails : ℤ
  pub window_start : ℤ
  pub down_until : ℤ
  pub idle : List Idle

abbrev pub initial : State
initial = record {
  current_weight = pos 0;
  fails = pos 0;
  window_start = pos 0;
  down_until = pos 0;
  idle = [];
}

unfoldable pub initial_states : List Peer → List State
initial_states [] = []
initial_states (p ∷ peers) = initial ∷ initial_states peers

-- One peer in the loop of `pick`: its configuration, its state and whether it has been tried.
abbrev pub candidate : Bool → ℤ → Bool → State → Bool
candidate allow_down now tried s = not tried && (allow_down || leb_ℤ s.down_until now)

abbrev pub heavier : State → Peer → State
heavier s p = record s { current_weight = s.current_weight +ℤ p.weight }

-- `best` with its weight, the total, and the states with the weights of the candidates raised.
pub record Round : Type 0 where
  pub best : Option (ℕ × ℤ)
  pub total : ℤ
  pub states : List State

abbrev pub better : Option (ℕ × ℤ) → ℕ → ℤ → Option (ℕ × ℤ)
better none i w = some (i, w)
better (some (b, v)) i w = if ltb_ℤ v w then some (i, w) else some (b, v)

-- The loop over the peers from the i-th on.
unfoldable pub round :
    Bool → ℤ → ℕ → List Peer → List State → List Bool → Option (ℕ × ℤ) → ℤ → Round
round allow_down now i (p ∷ peers) (s ∷ states) (t ∷ tried) best total =
    let chosen = candidate allow_down now t s in
    let s' = if chosen then heavier s p else s in
    let best' = if chosen then better best i s'.current_weight else best in
    let rest =
      round allow_down now (i + 1) peers states tried best'
        (if chosen then total +ℤ p.weight else total) in
    record rest { states = s' ∷ rest.states }
round allow_down now i peers states tried best total = record {
  best = best;
  total = total;
  states = states;
}

abbrev lighter : ℤ → State → State
lighter total s = record s { current_weight = s.current_weight -ℤ total }

unfoldable pub update : ℕ → (State → State) → List State → List State
update i f [] = []
update zero f (s ∷ states) = f s ∷ states
update (suc i) f (s ∷ states) = s ∷ update i f states

-- The end of a round that has a best peer.
abbrev pub settle : Round → ℕ → Option ℕ × List State
settle r b = (some b, update b (lighter r.total) r.states)

abbrev pub last_round : Round → Option ℕ × List State
last_round r = elim r.best [ some b ↦ settle r b.0 | none ↦ (none, r.states) ]

-- The round that lets peers that are down take part, after one that does not.
abbrev pub second_round : List Peer → List Bool → ℤ → Round → Option ℕ × List State
second_round peers tried now up =
    let any = round true now 0 peers up.states tried none (pos 0) in
    elim up.best [ some b ↦ settle up b.0 | none ↦ last_round any ]

unfoldable pub pick : List Peer → List State → List Bool → ℤ → Option ℕ × List State
pick peers states tried now =
    second_round peers tried now (round false now 0 peers states tried none (pos 0))

abbrev pub opened : ℤ → ℤ → State → State
opened now window s =
    if leb_ℤ s.fails (pos 0) && leb_ℤ (pos 0) s.fails || ltb_ℤ window (now -ℤ s.window_start)
    then record s { window_start = now; fails = pos 0 }
    else s

abbrev pub counted : ℤ → ℤ → ℤ → State → State
counted max_fails now window s =
    let fails = s.fails +ℤ pos 1 in
    if leb_ℤ max_fails fails
    then record s { down_until = now +ℤ window; fails = pos 0 }
    else record s { fails = fails }

-- `report` on the state of its peer.
unfoldable pub report : Peer → ℤ → Bool → State → State
report p now ok s =
    if ok
    then record s { fails = pos 0 }
    else if leb_ℤ p.max_fails (pos 0) && leb_ℤ (pos 0) p.max_fails
    then s
    else counted p.max_fails now p.fail_timeout_ms (opened now p.fail_timeout_ms s)

abbrev pub idle_lifetime : ℤ
idle_lifetime = pos 10000

-- Nothing can be read from the socket: neither data nor its end.
module _ (quiet : ℕ → Bool) where
  -- From the newest on: the connection that is found, and those that stay. The list has the newest first.
  unfoldable pub take_newest : ℤ → List Idle → Option ℕ × List Idle
  take_newest now [] = (none, [])
  take_newest now (item ∷ idle) =
      let rest = take_newest now idle in
      if ltb_ℤ (now -ℤ item.since) idle_lifetime && quiet item.conn
      then (some item.conn, idle)
      else rest

abbrev pub without_oldest : List Idle → List Idle
without_oldest [] = []
without_oldest (x ∷ []) = []
without_oldest (x ∷ y ∷ idle) = x ∷ without_oldest (y ∷ idle)

-- `park`: the new connection, and the oldest goes when there are too many.
unfoldable pub park : ℤ → ℕ → ℤ → List Idle → List Idle
park keepalive conn now idle =
    let item : Idle = record { conn = conn; since = now } in
    let idle' = item ∷ idle in
    if leb_ℤ keepalive (pos 0)
    then idle
    else if ltb_ℤ keepalive (pos (length idle'))
    then without_oldest idle'
    else idle'
