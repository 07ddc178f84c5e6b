-- ===== src/Signal/Outside.antt =====
-- What happens to a client's socket from outside, the page doing nothing.
use p2ptransfer.Base.{◌≡◌, refl, ap, ◌∙◌, arith, [], none, some, lookup}
use p2ptransfer.Signal.{
  Promise, resolved, rejected, settle, Client, Event, ons, sends, waits, closes, opens, errors,
  ends, receives, step, calls_of,
}

module _ {ℓ κ} {H : Type ℓ} {P : Type κ} where
  -- What can happen to a socket from outside.
  abbrev pub IsOutside : Event H P → Type 0
  IsOutside opens = Unit {0}
  IsOutside errors = Unit {0}
  IsOutside ends = Unit {0}
  IsOutside (receives text) = Unit {0}
  IsOutside (ons kind handler) = ⊥
  IsOutside (sends message) = ⊥
  IsOutside waits = ⊥
  IsOutside closes = ⊥

  -- A client without handlers calls none.
  pub no_calls : (e : Event H P) (c : Client H P) → c.handlers ≡ [] → calls_of e c ≡ []
  unfolding calls_of
  no_calls opens c h = refl
  no_calls errors c h = refl
  no_calls ends c h = refl
  no_calls (receives none) c h = refl
  no_calls (receives (some (kind, m))) c h = ground (arith, ap (lookup kind) h)
  no_calls (ons kind handler) c h = refl
  no_calls (sends message) c h = refl
  no_calls waits c h = refl
  no_calls closes c h = refl

  -- The promise and the table behind an event, if the promise is settled already or the event does not
  -- settle it.
  pub promise-kept :
      (e : Event H P) (c : Client H P) (q : Promise)
      → IsOutside e
      → c.promise ≡ q
      → ((x : Promise) → settle x q ≡ q)
      → (step e c).promise ≡ q
  unfolding step
  promise-kept opens c q o at fixed = ap (settle resolved) at ∙ fixed resolved
  promise-kept errors c q o at fixed = ap (settle rejected) at ∙ fixed rejected
  promise-kept ends c q o at fixed = at
  promise-kept (receives text) c q o at fixed = at
  promise-kept (ons kind handler) c q o at fixed = absurd o
  promise-kept (sends message) c q o at fixed = absurd o
  promise-kept waits c q o at fixed = absurd o
  promise-kept closes c q o at fixed = absurd o

  pub handlers-step :
      (e : Event H P) (c : Client H P) → IsOutside e → c.handlers ≡ [] → (step e c).handlers ≡ []
  unfolding step
  handlers-step opens c o h = h
  handlers-step errors c o h = h
  handlers-step ends c o h = h
  handlers-step (receives text) c o h = h
  handlers-step (ons kind handler) c o h = absurd o
  handlers-step (sends message) c o h = absurd o
  handlers-step waits c o h = absurd o
  handlers-step closes c o h = absurd o
