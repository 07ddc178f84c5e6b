-- ===== src/Yielder.antt =====
-- `createYielder` of web/static/js/transfer.js: the yields of a pump over a message channel. A yield is
-- the number of its promise.
use p2ptransfer.Base.{
  ℕ, zero, suc, ◌+◌, ◌-◌, ◌≤◌, ◌≡◌, refl, sym, ap, ◌∙◌, arith, List, [], ◌∷◌, ◌++◌, Option, none,
  some, Bool, true, false, if◌then◌else◌, range_from, range_from-snoc,
}

-- `handler` is the promise that `port2.onmessage` resolves, `posted` the messages under way, `made` the
-- number of yields, and `resumed` the promises that have been resolved, in order; a promise that is
-- resolved again stays as it is.
pub record Yielder : Type 0 where
  pub handler : Option ℕ
  pub posted : ℕ
  pub made : ℕ
  pub resumed : List ℕ
  pub ports_open : Bool

abbrev pub create_yielder : Yielder
create_yielder = record { handler = none; posted = 0; made = 0; resumed = []; ports_open = true }

-- `yield()`
unfoldable pub yield_once : Yielder → Yielder
yield_once y = record y {
  handler = some y.made;
  posted = if y.ports_open then y.posted + 1 else y.posted;
  made = y.made + 1;
}

-- `destroy()`: messages under way are not delivered any more.
unfoldable pub close_ports : Yielder → Yielder
close_ports y = record y { ports_open = false; posted = 0 }

abbrev pub resolve : Option ℕ → List ℕ → List ℕ
resolve none done = done
resolve (some k) done = done ++ k ∷ []

-- A message arrives at `port2`.
unfoldable pub arrive : ℕ → Yielder → Yielder
arrive zero y = y
arrive (suc posted) y = record y { posted = posted; resumed = resolve y.handler y.resumed }

pub data YieldEvent : Type 0 where
  yields arrivals destroys : YieldEvent

unfoldable pub yield_step : YieldEvent → Yielder → Yielder
unfolding yield_once close_ports arrive
yield_step yields y = yield_once y
yield_step arrivals y = arrive y.posted y
yield_step destroys y = close_ports y

unfoldable pub yield_run : List YieldEvent → Yielder → Yielder
unfolding yield_step
yield_run [] y = y
yield_run (e ∷ es) y = yield_run es (yield_step e y)

-- One pump yields only when its last yield is over, and destroys the yielder when it returns.
abbrev pub Serial : List YieldEvent → Yielder → Type 0
Serial [] y = Unit {0}
Serial (yields ∷ es) y = (y.posted ≡ 0) × Serial es (yield_step yields y)
Serial (arrivals ∷ es) y = Serial es (yield_step arrivals y)
Serial (destroys ∷ es) y = ⊥

-- At most one message is under way, and it will resolve the last yield; the others are over.
record Stands (y : Yielder) : Type 0 where
  one : y.posted ≤ 1
  made : y.posted ≤ y.made
  last : y.posted ≡ 1 → y.handler ≡ some (y.made - 1)
  resumed : y.resumed ≡ range_from 0 (y.made - y.posted)
  open_still : y.ports_open ≡ true

yield_once-Stands : (y : Yielder) → y.posted ≡ 0 → Stands y → Stands (yield_once y)
unfolding yield_once
yield_once-Stands y none_under_way h = record {
  one = ground (arith, none_under_way, h.open_still);
  made = ground (arith, none_under_way, h.open_still);
  last = λ e. ap some (omega arith);
  resumed = h.resumed ∙ ap (range_from 0) (ground (arith, none_under_way, h.open_still));
  open_still = h.open_still;
}

arrive-Stands : (k : ℕ) (y : Yielder) → y.posted ≡ k → Stands y → Stands (arrive k y)
unfolding arrive
arrive-Stands zero y at h = h
arrive-Stands (suc k) y at h =
    let single : k ≡ 0 = omega (arith, at, h.one) in
    let snoc : range_from 0 (suc (y.made - 1)) ≡ range_from 0 (y.made - 1) ++ (y.made - 1) ∷ [] =
      range_from-snoc 0 (y.made - 1)
      ∙ ap (λ n. range_from 0 (y.made - 1) ++ n ∷ []) (omega arith) in
    record {
      one = omega (arith, single);
      made = omega (arith, single);
      last = λ e. absurd (omega (arith, single, e));
      resumed =
          ap (λ o. resolve o y.resumed) (h.last (omega (arith, at, single)))
          ∙ ap (λ xs. xs ++ (y.made - 1) ∷ [])
              (h.resumed ∙ ap (range_from 0) (omega (arith, at, single)))
          ∙ sym snoc
          ∙ ap (range_from 0) {x = suc (y.made - 1)} (omega (arith, at, single, h.made));
      open_still = h.open_still;
    }

run-Stands : (es : List YieldEvent) (y : Yielder) → Serial es y → Stands y → Stands (yield_run es y)
unfolding yield_run yield_step
run-Stands [] y q h = h
run-Stands (yields ∷ es) y q h = run-Stands es (yield_once y) q.1 (yield_once-Stands y q.0 h)
run-Stands (arrivals ∷ es) y q h =
    run-Stands es (arrive y.posted y) q (arrive-Stands y.posted y refl h)
run-Stands (destroys ∷ es) y q h = absurd q

-- A pump that yields only when its last yield is over is resumed by each message, once for each yield
-- and in their order: all its yields are over but the one whose message is under way, if there is one.
pub yield_run-resumed :
    (es : List YieldEvent)
    → Serial es create_yielder
    → ((yield_run es create_yielder).resumed
        ≡ range_from 0 ((yield_run es create_yielder).made - (yield_run es create_yielder).posted))
      × ((yield_run es create_yielder).posted ≤ 1)
yield_run-resumed es q =
    let h = run-Stands es create_yielder q (record {
      one = omega arith;
      made = omega arith;
      last = λ e. absurd (omega (arith, e));
      resumed = refl;
      open_still = refl;
    }) in
    (h.resumed, h.one)
