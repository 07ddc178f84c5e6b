-- ===== src/Signal/Calls.antt =====
-- What a client has called and sent, and how its promise ends, read off the events alone.
use p2ptransfer.Base.{
  ℕ, zero, suc, ◌≡◌, refl, sym, ap, ap₂, ◌∙◌, arith, List, [], ◌∷◌, ◌++◌, Option, none, some,
  lookup, lookup-insert, ◌==◌, if◌then◌else◌, length, get_elem?, Bool, true, false,
}
use p2ptransfer.Signal.{
  Promise, pending, resolved, rejected, asked, Client, new_client, Event, ons, sends, waits, closes,
  opens, errors, ends, receives, step, run, calls, calls_of, settle, promises, wait_open, send,
  close, opened, errored, socket_closed, is_open,
}

module _ {ℓ κ} {H : Type ℓ} {P : Type κ} where
  -- The handler for a type after an event, given the one before it.
  abbrev noted : ℕ → Event H P → Option H → Option H
  noted kind (ons k handler) before = if k == kind then some handler else before
  noted kind (sends message) before = before
  noted kind waits before = before
  noted kind closes before = before
  noted kind opens before = before
  noted kind errors before = before
  noted kind ends before = before
  noted kind (receives text) before = before

  -- The last handler that the events register for a type, or what was there before.
  abbrev pub registered : ℕ → Option H → List (Event H P) → Option H
  registered kind before [] = before
  registered kind before (e ∷ es) = registered kind (noted kind e before) es

  abbrev call_if : Option H → P → List (H × P)
  call_if none payload = []
  call_if (some handler) payload = (handler, payload) ∷ []

  -- The calls that an event causes, after the events `past`.
  abbrev pub answered : List (Event H P) → Event H P → List (H × P)
  answered past (receives none) = []
  answered past (receives (some (kind, payload))) = call_if (registered kind none past) payload
  answered past (ons k handler) = []
  answered past (sends message) = []
  answered past waits = []
  answered past closes = []
  answered past opens = []
  answered past errors = []
  answered past ends = []

  abbrev pub expected_calls : List (Event H P) → List (Event H P) → List (H × P)
  expected_calls past [] = []
  expected_calls past (e ∷ es) = answered past e ++ expected_calls (past ++ e ∷ []) es

  lookup-step :
      (kind : ℕ) (e : Event H P) (c : Client H P)
      → lookup kind (step e c).handlers ≡ noted kind e (lookup kind c.handlers)
  unfolding step
  lookup-step kind (ons k handler) c = lookup-insert kind k handler c.handlers
  lookup-step kind (sends message) c = ground arith
  lookup-step kind waits c = refl
  lookup-step kind closes c = ground arith
  lookup-step kind opens c = refl
  lookup-step kind errors c = refl
  lookup-step kind ends c = refl
  lookup-step kind (receives text) c = refl

  registered-append :
      (kind : ℕ) (before : Option H) (es fs : List (Event H P))
      → registered kind before (es ++ fs) ≡ registered kind (registered kind before es) fs
  registered-append kind before [] fs = refl
  registered-append kind before (e ∷ es) fs = registered-append kind (noted kind e before) es fs

  calls_of-answered :
      (past : List (Event H P)) (e : Event H P) (c : Client H P)
      → ((kind : ℕ) → lookup kind c.handlers ≡ registered kind none past)
      → calls_of e c ≡ answered past e
  unfolding calls_of
  calls_of-answered past (receives none) c h = refl
  calls_of-answered past (receives (some (kind, payload))) c h = ground (arith, h kind)
  calls_of-answered past (ons k handler) c h = refl
  calls_of-answered past (sends message) c h = refl
  calls_of-answered past waits c h = refl
  calls_of-answered past closes c h = refl
  calls_of-answered past opens c h = refl
  calls_of-answered past errors c h = refl
  calls_of-answered past ends c h = refl

  calls-expected_from :
      (past es : List (Event H P)) (c : Client H P)
      → ((kind : ℕ) → lookup kind c.handlers ≡ registered kind none past)
      → calls es c ≡ expected_calls past es
  unfolding calls
  calls-expected_from past [] c h = refl
  calls-expected_from past (e ∷ es) c h = ap₂ ◌++◌ (calls_of-answered past e c h) (
      calls-expected_from (past ++ e ∷ []) es (step e c) (λ kind.
        lookup-step kind e c
        ∙ ap (noted kind e) (h kind)
        ∙ sym (registered-append kind none past (e ∷ []))))

  -- Whatever is registered, sent and received in whatever order, a message calls the handler that was
  -- registered last for its type before it came, with its payload, and no other; a text that does not
  -- parse and a type that nothing has been registered for call none.
  pub calls-expected_calls :
      (es : List (Event H P)) → calls es (new_client {H = H} {P = P}) ≡ expected_calls [] es
  calls-expected_calls es = calls-expected_from [] es new_client (λ kind. refl)

-- How a pending promise ends: by the first of an opening and an error, unless another call of
-- `waitOpen` takes the handlers of the socket before.
abbrev pub outcome {ℓ κ} : {H : Type ℓ} {P : Type κ} → List (Event H P) → Promise
outcome [] = pending
outcome (opens ∷ es) = resolved
outcome (errors ∷ es) = rejected
outcome (waits ∷ es) = pending
outcome (ons k handler ∷ es) = outcome es
outcome (sends message ∷ es) = outcome es
outcome (closes ∷ es) = outcome es
outcome (ends ∷ es) = outcome es
outcome (receives text ∷ es) = outcome es

get_elem?-last : (ps : List Promise) (p : Promise) → get_elem? (ps ++ p ∷ []) (length ps) ≡ some p
get_elem?-last [] p = refl
get_elem?-last (q ∷ ps) p = get_elem?-last ps p

get_elem?-front :
    (ps qs : List Promise) (k : ℕ) {p : Promise}
    → get_elem? ps k ≡ some p
    → get_elem? (ps ++ qs) k ≡ some p
get_elem?-front [] qs k h = ground (arith, h)
get_elem?-front (q ∷ ps) qs zero h = h
get_elem?-front (q ∷ ps) qs (suc k) h = get_elem?-front ps qs k h

module _ {ℓ κ} {H : Type ℓ} {P : Type κ} where
  -- The promise of an earlier call stays as it is.
  run-earlier :
      (es : List (Event H P)) (c : Client H P) (k : ℕ) (p : Promise)
      → get_elem? c.earlier k ≡ some p
      → get_elem? (promises (run es c)) k ≡ some p
  unfolding run step
  run-earlier [] c k p h = get_elem?-front c.earlier (asked c.promise) k h
  run-earlier (ons j handler ∷ es) c k p h = run-earlier es _ k p h
  run-earlier (sends message ∷ es) c k p h = run-earlier es (send message c) k p (ground (arith, h))
  run-earlier (waits ∷ es) c k p h =
      run-earlier es (wait_open c) k p (get_elem?-front c.earlier (asked c.promise) k h)
  run-earlier (closes ∷ es) c k p h = run-earlier es (close c) k p (ground (arith, h))
  run-earlier (opens ∷ es) c k p h = run-earlier es (opened c) k p h
  run-earlier (errors ∷ es) c k p h = run-earlier es (errored c) k p h
  run-earlier (ends ∷ es) c k p h = run-earlier es (socket_closed c) k p h
  run-earlier (receives text ∷ es) c k p h = run-earlier es c k p h

  -- Nor does that of the last call change when it is settled.
  run-settled :
      (es : List (Event H P)) (c : Client H P) (k : ℕ) (p : Promise)
      → length c.earlier ≡ k
      → c.promise ≡ p
      → asked p ≡ p ∷ []
      → settle resolved p ≡ p
      → settle rejected p ≡ p
      → get_elem? (promises (run es c)) k ≡ some p
  unfolding run step
  run-settled [] c k p l h a r j = rw (h, a, sym l) (get_elem?-last c.earlier p)
  run-settled (ons i handler ∷ es) c k p l h a r j = run-settled es _ k p l h a r j
  run-settled (sends message ∷ es) c k p l h a r j =
      run-settled es (send message c) k p (ground (arith, l)) (ground (arith, h)) a r j
  run-settled (waits ∷ es) c k p l h a r j =
      run-earlier es (wait_open c) k p (rw (h, a, sym l) (get_elem?-last c.earlier p))
  run-settled (closes ∷ es) c k p l h a r j =
      run-settled es (close c) k p (ground (arith, l)) (ground (arith, h)) a r j
  run-settled (opens ∷ es) c k p l h a r j =
      run-settled es (opened c) k p l (ap (settle resolved) h ∙ r) a r j
  run-settled (errors ∷ es) c k p l h a r j =
      run-settled es (errored c) k p l (ap (settle rejected) h ∙ j) a r j
  run-settled (ends ∷ es) c k p l h a r j = run-settled es (socket_closed c) k p l h a r j
  run-settled (receives text ∷ es) c k p l h a r j = run-settled es c k p l h a r j

  run-pending :
      (es : List (Event H P)) (c : Client H P) (k : ℕ)
      → length c.earlier ≡ k
      → c.promise ≡ pending
      → get_elem? (promises (run es c)) k ≡ some (outcome es)
  unfolding run step
  run-pending [] c k l h = rw (h, sym l) (get_elem?-last c.earlier pending)
  run-pending (ons i handler ∷ es) c k l h = run-pending es _ k l h
  run-pending (sends message ∷ es) c k l h =
      run-pending es (send message c) k (ground (arith, l)) (ground (arith, h))
  run-pending (waits ∷ es) c k l h =
      run-earlier es (wait_open c) k pending (rw (h, sym l) (get_elem?-last c.earlier pending))
  run-pending (closes ∷ es) c k l h =
      run-pending es (close c) k (ground (arith, l)) (ground (arith, h))
  run-pending (opens ∷ es) c k l h =
      run-settled es (opened c) k resolved l (ap (settle resolved) h) refl refl refl
  run-pending (errors ∷ es) c k l h =
      run-settled es (errored c) k rejected l (ap (settle rejected) h) refl refl refl
  run-pending (ends ∷ es) c k l h = run-pending es (socket_closed c) k l h
  run-pending (receives text ∷ es) c k l h = run-pending es c k l h

  run-asked_open :
      (es : List (Event H P)) (c : Client H P) (ready : Bool)
      → is_open c.ready ≡ ready
      → get_elem? (promises (run es (wait_open c))) (length (promises c))
        ≡ some (if ready then resolved else outcome es)
  unfolding wait_open
  run-asked_open es c true h =
      run-settled es (wait_open c) (length (promises c)) resolved refl (ground (arith, h)) refl refl
        refl
  run-asked_open es c false h =
      run-pending es (wait_open c) (length (promises c)) refl (ground (arith, h))

  -- The promise that a call of `waitOpen` returns, and what has become of it after whatever comes
  -- behind the call, further calls included. Where the socket is open it is resolved, and stays so.
  -- Otherwise it is resolved for good by an opening and rejected for good by an error, whichever comes
  -- first, if no further call of `waitOpen` comes before it; it stays pending where neither comes, a
  -- closing of the socket included, and is pending for good where a further call comes first, since
  -- that call takes over `onopen` and `onerror`.
  pub run-promise :
      (es : List (Event H P)) (c : Client H P)
      → get_elem? (promises (run es (wait_open c))) (length (promises c))
        ≡ some (if is_open c.ready then resolved else outcome es)
  run-promise es c = run-asked_open es c (is_open c.ready) refl
