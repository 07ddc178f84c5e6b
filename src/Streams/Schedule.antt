-- ===== src/Streams/Schedule.antt =====
-- The sender as a whole: `_tryStart`, `_waitForDrain`, and runs of a schedule of events.
use p2ptransfer.Base.{
  ℕ, zero, suc, ◌+◌, ◌-◌, List, [], ◌∷◌, ◌++◌, map, none, some, Bool, true, false, not, ◌==◌, ◌&&◌,
  ◌||◌, if◌then◌else◌, get_elem?, set, length,
}
use p2ptransfer.Wire.{Bytes, chunks_of}
use p2ptransfer.Sender.{new_engine, drained, start_sending}
use p2ptransfer.Streams.{relay, p2p, testing, Conn, System, Round, new_conn, round, read_fails}

-- `createOffer`: eight relay and four P2P connections, none of them open yet.
unfoldable pub repeat : ℕ → Conn → List Conn
repeat zero c = []
repeat (suc n) c = c ∷ repeat n c

abbrev pub num_relay : ℕ
num_relay = 8

abbrev pub num_p2p : ℕ
num_p2p = 4

unfoldable pub create_offer : Bytes → System
unfolding repeat new_conn new_engine
create_offer file = record {
  engine = new_engine file;
  conns = repeat num_relay (new_conn relay) ++ repeat num_p2p (new_conn p2p);
  sent = [];
}

-- `createOffer` on an engine that has one behind it: its counters stay. A socket whose place in
-- `relayConns` a new one takes stays in the list of connections; only `_waitForDrain` could tell.
unfoldable pub offer_again : Bytes → System → System
unfolding repeat new_conn
offer_again file s = record s {
  engine = record s.engine { file = file; total_chunks = chunks_of (length file) };
  conns = s.conns ++ (repeat num_relay (new_conn relay) ++ repeat num_p2p (new_conn p2p));
}

-- Membership in `relayReady` and `p2pReady`.
unfoldable pub is_ready : Conn → Bool
is_ready c = elim c.kind [ relay ↦ c.ready && c.open_now | p2p ↦ c.ready && not c.pump_started ]

unfoldable pub any_ready : List Conn → Bool
unfolding is_ready
any_ready [] = false
any_ready (c ∷ cs) = is_ready c || any_ready cs

-- The two loops of `_tryStart` that launch pumps.
unfoldable pub launch : Conn → Conn
unfolding is_ready
launch c =
    if is_ready c && not c.pump_started then record c { pump_started = true; pump = testing } else c

-- `_tryStart()`
unfoldable pub try_start : System → System
unfolding any_ready launch
try_start s =
    let launched = map launch s.conns in
    if s.engine.sending_started
    then record s { conns = launched }
    else (if any_ready s.conns
        then record s { engine = start_sending s.engine; conns = launched }
        else s)

-- What happens to a connection: it opens (`onopen` runs once), with `n` bytes of file info in its
-- buffer; it closes; `n` bytes leave its buffer.
unfoldable pub open_conn : ℕ → Conn → Conn
open_conn n c = if c.ready then c else record c { ready = true; open_now = true; buffered = n }

unfoldable pub close_conn : Conn → Conn
close_conn c = record c { open_now = false }

unfoldable pub drain_conn : ℕ → Conn → Conn
drain_conn n c = record c { buffered = c.buffered - n }

unfoldable pub fail_conn : Conn → Conn
unfolding read_fails
fail_conn c = record c { pump = read_fails c.pump }

-- A change of the connection at place `i`, if there is one.
unfoldable pub on_conn : ℕ → (Conn → Conn) → List Conn → List Conn
on_conn i f [] = []
on_conn zero f (c ∷ cs) = f c ∷ cs
on_conn (suc i) f (c ∷ cs) = c ∷ on_conn i f cs

-- `destroy()`: it closes the sockets that stand in `relayConns`, which are those that have opened, the
-- data channels and their connections.
unfoldable pub shut : Conn → Conn
unfolding close_conn
shut c = elim c.kind [ relay ↦ if c.ready then close_conn c else c | p2p ↦ close_conn c ]

unfoldable pub destroy : System → System
unfolding shut
destroy s = record s { engine = record s.engine { stats = false }; conns = map shut s.conns }

-- The bytes that `_waitForDrain` adds up: those of the connections that are open.
unfoldable pub total_buffered : List Conn → ℕ
total_buffered [] = 0
total_buffered (c ∷ cs) = (if c.ready && c.open_now then c.buffered else 0) + total_buffered cs

-- A round of the loop of `_waitForDrain`.
unfoldable pub poll : System → System
unfolding total_buffered drained
poll s = if total_buffered s.conns == 0 then record s { engine = drained s.engine } else s

unfoldable pub after_round : ℕ → Round → System → System
after_round i r s = record {
  engine = r.engine;
  conns = set s.conns i r.conn;
  sent = s.sent ++ r.out;
}

-- A round of the pump at place `i`.
unfoldable pub turn : Bool → ℕ → System → System
unfolding after_round round
turn throws i s = elim (get_elem? s.conns i) [
  | none ↦ s
  | some c ↦ after_round i (round throws s.engine c.pump c) s
]

pub data Event : Type 0 where
  opens : ℕ → ℕ → Event
  closes : ℕ → Event
  drains : ℕ → ℕ → Event
  turns : Bool → ℕ → Event
  fails : ℕ → Event
  polls : Event

unfoldable pub step : Event → System → System
unfolding open_conn close_conn drain_conn fail_conn on_conn try_start turn poll
step (opens i n) s = try_start (record s { conns = on_conn i (open_conn n) s.conns })
step (closes i) s = record s { conns = on_conn i close_conn s.conns }
step (drains i n) s = record s { conns = on_conn i (drain_conn n) s.conns }
step (turns throws i) s = turn throws i s
step (fails i) s = record s { conns = on_conn i fail_conn s.conns }
step polls s = poll s

unfoldable pub run : List Event → System → System
unfolding step
run [] s = s
run (e ∷ es) s = run es (step e s)
