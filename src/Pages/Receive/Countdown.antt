-- ===== src/Pages/Receive/Countdown.antt =====
-- The countdown and the button start the transfer, once.
use p2ptransfer.Base.{
  ℕ, suc, ◌+◌, ◌-◌, ◌<◌, ◌≡◌, ◌⊎◌, inl, inr, refl, ◌∙◌, arith, List, [], ◌∷◌, Option, none, some,
  Bool, true, false, leb, ◌||◌, if◌then◌else◌, Bool-cases, not,
}
use p2ptransfer.Signal
use p2ptransfer.Signal.{
  Client, Promise, pending, resolved, unasked, rejected, Event, opens, errors, ends, receives,
  calls_of,
}
use p2ptransfer.Pages.{Payload}
use p2ptransfer.Pages.Receive.{
  Page, new_page, Handler, on_offer, on_candidate, on_disconnected, handle, handle_all,
  show_transfer, joined, refuse, continue, on_socket, on_file_info, on_complete, start_receive,
  start_unless_started, tick, click, PageEvent, ticks, clicks, socket_opens, socket_errors,
  socket_ends, messages, file_info, completes, step, run,
}

-- What decides whether the transfer has been started.
record Kept (p p' : Page) : Type 0 where
  countdown : p'.countdown ≡ p.countdown
  timer : p'.timer ≡ p.timer
  receive_started : p'.receive_started ≡ p.receive_started
  starts : p'.starts ≡ p.starts

Kept-refl : (p : Page) → Kept p p
Kept-refl p = record { countdown = refl; timer = refl; receive_started = refl; starts = refl }

Kept-trans : {p q r : Page} → Kept p q → Kept q r → Kept p r
Kept-trans a b = record {
  countdown = b.countdown ∙ a.countdown;
  timer = b.timer ∙ a.timer;
  receive_started = b.receive_started ∙ a.receive_started;
  starts = b.starts ∙ a.starts;
}

handle-Kept : (h : Handler) (m : Payload) (p : Page) → Kept p (handle h m p)
unfolding handle show_transfer
handle-Kept on_offer m p = ground arith
handle-Kept on_candidate m p = ground arith
handle-Kept on_disconnected m p = Kept-refl p

handle_all-Kept : (hs : List (Handler × Payload)) (p : Page) → Kept p (handle_all hs p)
unfolding handle_all
handle_all-Kept [] p = Kept-refl p
handle_all-Kept ((h, m) ∷ hs) p = Kept-trans (handle-Kept h m p) (handle_all-Kept hs (handle h m p))

continue-Kept :
    (before after : Promise) (c : Client Handler Payload) (p : Page)
    → Kept p (continue before after c p)
unfolding continue joined refuse
continue-Kept pending resolved c p = ground arith
continue-Kept pending rejected c p = ground arith
continue-Kept pending pending c p = Kept-refl p
continue-Kept pending unasked c p = Kept-refl p
continue-Kept unasked after c p = Kept-refl p
continue-Kept resolved after c p = Kept-refl p
continue-Kept rejected after c p = Kept-refl p

on_socket-Kept : (e : Event Handler Payload) (p : Page) → Kept p (on_socket e p)
unfolding on_socket
on_socket-Kept e p = by_client p.client refl
  where
    with_client : (c : Client Handler Payload) → Kept p (record p { client = some c })
    with_client c = record { countdown = refl; timer = refl; receive_started = refl; starts = refl }

    by_client :
        (o : Option (Client Handler Payload))
        → p.client ≡ o
        → Kept p (elim o [
          | none ↦ p
          | some c ↦
              let c' = Signal.step e c in
              continue c.promise c'.promise c'
                (handle_all (calls_of e c) (record p { client = some c' }))
        ])
    by_client none at = Kept-refl p
    by_client (some c) at = Kept-trans (with_client (Signal.step e c)) (
        Kept-trans (handle_all-Kept (calls_of e c) _)
          (continue-Kept c.promise (Signal.step e c).promise (Signal.step e c) _))

-- Whether the button has been clicked, and how often the interval has fired.
abbrev note_click : PageEvent → Bool → Bool
note_click clicks before = true
note_click ticks before = before
note_click socket_opens before = before
note_click socket_errors before = before
note_click socket_ends before = before
note_click (messages text) before = before
note_click (file_info name size) before = before
note_click completes before = before

abbrev note_tick : PageEvent → ℕ → ℕ
note_tick ticks n = suc n
note_tick clicks n = n
note_tick socket_opens n = n
note_tick socket_errors n = n
note_tick socket_ends n = n
note_tick (messages text) n = n
note_tick (file_info name size) n = n
note_tick completes n = n

abbrev pub clicked : Bool → List PageEvent → Bool
clicked before [] = before
clicked before (e ∷ es) = clicked (note_click e before) es

abbrev pub fired : ℕ → List PageEvent → ℕ
fired n [] = n
fired n (e ∷ es) = fired (note_tick e n) es

-- The countdown runs and nothing has started, or it has stopped and one start has happened.
Running : Bool → ℕ → Page → Type 0
Running c n p =
    (p.timer ≡ true)
    × (p.receive_started ≡ false)
    × (p.starts ≡ 0)
    × (p.countdown + n ≡ 5)
    × (0 < p.countdown)
    × (c ≡ false)

Stopped : Bool → ℕ → Page → Type 0
Stopped c n p =
    (p.timer ≡ false) × (p.receive_started ≡ true) × (p.starts ≡ 1) × ((c || leb 5 n) ≡ true)

Kept-either :
    (c : Bool) (n : ℕ) {p p' : Page}
    → Kept p p'
    → Running c n p ⊎ Stopped c n p
    → Running c n p' ⊎ Stopped c n p'
unfolding Running Stopped
Kept-either c n k (inl (t, r, s, sum, pos, not_yet)) = inl (
  k.timer ∙ t,
  k.receive_started ∙ r,
  k.starts ∙ s,
  omega (arith, k.countdown, sum),
  omega (arith, k.countdown, pos),
  not_yet,
)
Kept-either c n k (inr (t, r, s, why)) = inr (k.timer ∙ t, k.receive_started ∙ r, k.starts ∙ s, why)

tick-either :
    (c : Bool) (n : ℕ) (p : Page)
    → Running c n p ⊎ Stopped c n p
    → Running c (suc n) (tick p) ⊎ Stopped c (suc n) (tick p)
unfolding Running Stopped tick start_unless_started start_receive
tick-either c n p (inl (t, r, s, sum, pos, not_yet)) = elim (Bool-cases (leb (p.countdown - 1) 0)) [
  | inl over ↦ inr (
    ground (arith, t, over),
    ground (arith, t, over),
    ground (arith, t, over, r, s),
    ground (arith, over, sum, pos, not_yet),
  )
  | inr more ↦ inl (
    ground (arith, t, more),
    ground (arith, t, more, r),
    ground (arith, t, more, s),
    ground (arith, t, more, sum, pos),
    ground (arith, t, more),
    not_yet,
  )
]
tick-either c n p (inr (t, r, s, why)) =
    inr (ground (arith, t), ground (arith, t, r), ground (arith, t, s), ground (arith, why))

click-either :
    (c : Bool) (n : ℕ) (p : Page)
    → Running c n p ⊎ Stopped c n p
    → Running true n (click p) ⊎ Stopped true n (click p)
unfolding Running Stopped click start_unless_started start_receive
click-either c n p (inl (t, r, s, sum, pos, not_yet)) =
    inr (ground (arith, r), ground (arith, r), ground (arith, r, s), refl)
click-either c n p (inr (t, r, s, why)) =
    inr (ground (arith, r), ground (arith, r), ground (arith, r, s), refl)

step-either :
    (e : PageEvent) (c : Bool) (n : ℕ) (p : Page)
    → Running c n p ⊎ Stopped c n p
    → Running (note_click e c) (note_tick e n) (step e p)
      ⊎ Stopped (note_click e c) (note_tick e n) (step e p)
unfolding step on_file_info on_complete
step-either ticks c n p h = tick-either c n p h
step-either clicks c n p h = click-either c n p h
step-either socket_opens c n p h = Kept-either c n (on_socket-Kept opens p) h
step-either socket_errors c n p h = Kept-either c n (on_socket-Kept errors p) h
step-either socket_ends c n p h = Kept-either c n (on_socket-Kept ends p) h
step-either (messages text) c n p h = Kept-either c n (on_socket-Kept (receives text) p) h
step-either (file_info name size) c n p h = Kept-either c n (ground arith) h
step-either completes c n p h = Kept-either c n (ground arith) h

run-either :
    (es : List PageEvent) (c : Bool) (n : ℕ) (p : Page)
    → Running c n p ⊎ Stopped c n p
    → Running (clicked c es) (fired n es) (run es p)
      ⊎ Stopped (clicked c es) (fired n es) (run es p)
unfolding run
run-either [] c n p h = h
run-either (e ∷ es) c n p h =
    run-either es (note_click e c) (note_tick e n) (step e p) (step-either e c n p h)

-- Whatever happens on the page, the transfer is started once if the button has been clicked or the
-- interval has fired five times, and otherwise not at all; and the interval has been cleared exactly
-- if it has been started.
pub run-starts :
    (es : List PageEvent)
    → ((run es new_page).starts ≡ (if clicked false es || leb 5 (fired 0 es) then 1 else 0))
      × ((run es new_page).receive_started ≡ (clicked false es || leb 5 (fired 0 es)))
      × ((run es new_page).timer ≡ not (run es new_page).receive_started)
unfolding Running Stopped
run-starts es =
    read (run-either es false 0 new_page (inl (refl, refl, refl, refl, omega arith, refl)))
  where
    read :
        Running (clicked false es) (fired 0 es) (run es new_page)
          ⊎ Stopped (clicked false es) (fired 0 es) (run es new_page)
        → ((run es new_page).starts ≡ (if clicked false es || leb 5 (fired 0 es) then 1 else 0))
          × ((run es new_page).receive_started ≡ (clicked false es || leb 5 (fired 0 es)))
          × ((run es new_page).timer ≡ not (run es new_page).receive_started)
    read (inl (t, r, s, sum, pos, not_yet)) = (
      ground (arith, s, sum, pos, not_yet),
      ground (arith, r, sum, pos, not_yet),
      ground (arith, t, r),
    )
    read (inr (t, r, s, why)) =
        (ground (arith, s, why), ground (arith, r, why), ground (arith, t, r))
