-- ===== src/Streams/Conns.antt =====
-- What the connections hold in flight, taken together, and how it changes with one of them.
use p2ptransfer.Base.{
  ℕ, zero, suc, ◌+◌, ◌≡◌, refl, ap, ap₂, subst, List, [], ◌∷◌, ◌++◌, map, some, some-injective,
  false, arith, length, count, count-append, length-append, All, Bool-cases, inl, inr, get_elem?,
  set,
}
use p2ptransfer.Streams.{
  Pump, unstarted, testing, ended, reading, rejected, sending, waiting, Conn, read_fails,
}
use p2ptransfer.Streams.Flight.{flight}
use p2ptransfer.Streams.Schedule.{launch, on_conn, fail_conn}

abbrev pub flights : List Conn → List ℕ
flights [] = []
flights (c ∷ cs) = flight c.pump ++ flights cs

pub count-flights-set :
    (a i : ℕ) (cs : List Conn) {c : Conn} (c' : Conn)
    → get_elem? cs i ≡ some c
    → count a (flights (set cs i c')) + count a (flight c.pump)
      ≡ count a (flights cs) + count a (flight c'.pump)
count-flights-set a i [] c' at = cc
count-flights-set a zero (d ∷ cs) {c} c' at = omega (
  arith,
  count-append a (flight c'.pump) (flights cs),
  count-append a (flight d.pump) (flights cs),
  ap (λ (x : Conn). count a (flight x.pump)) (some-injective d c at),
)
count-flights-set a (suc i) (d ∷ cs) {c} c' at = omega (
  arith,
  count-append a (flight d.pump) (flights (set cs i c')),
  count-append a (flight d.pump) (flights cs),
  count-flights-set a i cs {c = c} c' at,
)

pub length-flights-set :
    (i : ℕ) (cs : List Conn) {c : Conn} (c' : Conn)
    → get_elem? cs i ≡ some c
    → length (flights (set cs i c')) + length (flight c.pump)
      ≡ length (flights cs) + length (flight c'.pump)
length-flights-set i [] c' at = cc
length-flights-set zero (d ∷ cs) {c} c' at = omega (
  arith,
  length-append (flight c'.pump) (flights cs),
  length-append (flight d.pump) (flights cs),
  ap (λ (x : Conn). length (flight x.pump)) (some-injective d c at),
)
length-flights-set (suc i) (d ∷ cs) {c} c' at = omega (
  arith,
  length-append (flight d.pump) (flights (set cs i c')),
  length-append (flight d.pump) (flights cs),
  length-flights-set i cs {c = c} c' at,
)

module _ {ℓ} (P : Conn → Type ℓ) where
  pub All-get_elem? : (i : ℕ) (cs : List Conn) {c : Conn} → get_elem? cs i ≡ some c → All P cs → P c
  All-get_elem? i [] at h = cc
  All-get_elem? zero (d ∷ cs) at h = subst P (some-injective _ _ at) h.0
  All-get_elem? (suc i) (d ∷ cs) at h = All-get_elem? i cs at h.1

  pub All-set : (i : ℕ) (cs : List Conn) (c : Conn) → P c → All P cs → All P (set cs i c)
  All-set i [] c p h = tt
  All-set zero (d ∷ cs) c p h = (p, h.1)
  All-set (suc i) (d ∷ cs) c p h = (h.0, All-set i cs c p h.1)

  pub All-on_conn :
      (i : ℕ) (f : Conn → Conn) (cs : List Conn)
      → ((c : Conn) → P c → P (f c))
      → All P cs
      → All P (on_conn i f cs)
  unfolding on_conn
  All-on_conn i f [] keep h = tt
  All-on_conn zero f (c ∷ cs) keep h = (keep c h.0, h.1)
  All-on_conn (suc i) f (c ∷ cs) keep h = (h.0, All-on_conn i f cs keep h.1)

  pub All-map {κ} :
      (Q : Conn → Type κ) (f : Conn → Conn) (cs : List Conn)
      → ((c : Conn) → P c → Q (f c))
      → All P cs
      → All Q (map f cs)
  All-map Q f [] keep h = tt
  All-map Q f (c ∷ cs) keep h = (keep c h.0, All-map Q f cs keep h.1)

pub flights-on_conn :
    (i : ℕ) (f : Conn → Conn) (cs : List Conn)
    → ((c : Conn) → flight (f c).pump ≡ flight c.pump)
    → flights (on_conn i f cs) ≡ flights cs
unfolding on_conn
flights-on_conn i f [] same = refl
flights-on_conn zero f (c ∷ cs) same = ap (λ xs. xs ++ flights cs) (same c)
flights-on_conn (suc i) f (c ∷ cs) same = ap (◌++◌ (flight c.pump)) (flights-on_conn i f cs same)

-- A connection whose pump has not been launched has an unstarted pump.
abbrev pub IsConsistent : Conn → Type 0
IsConsistent c = c.pump_started ≡ false → c.pump ≡ unstarted

flight-launch : (c : Conn) → IsConsistent c → flight (launch c).pump ≡ flight c.pump
unfolding launch
flight-launch c h = elim (Bool-cases c.pump_started) [
  | inl on ↦ ground arith
  | inr off ↦ ground (arith, ap flight (h off))
]

pub flights-launch : (cs : List Conn) → All IsConsistent cs → flights (map launch cs) ≡ flights cs
flights-launch [] h = refl
flights-launch (c ∷ cs) h = ap₂ ◌++◌ (flight-launch c h.0) (flights-launch cs h.1)

pub launch-IsConsistent : (c : Conn) → IsConsistent c → IsConsistent (launch c)
unfolding launch
launch-IsConsistent c h = ground arith

pub flight-fail_conn : (c : Conn) → flight (fail_conn c).pump ≡ flight c.pump
unfolding fail_conn
flight-fail_conn c = by_pump c.pump
  where
    by_pump : (p : Pump) → flight (read_fails p) ≡ flight p
    by_pump unstarted = refl
    by_pump testing = refl
    by_pump ended = refl
    by_pump (reading claim) = refl
    by_pump (rejected claim) = refl
    by_pump (sending batch) = refl
    by_pump (waiting batch) = refl
