-- ===== src/Pages/Send/Cards.antt =====
-- Where the send page stands, and what its own events do to that.
use p2ptransfer.Base.{
  ℕ, zero, suc, ◌≡◌, ◌⊎◌, inl, inr, ◌≢◌, refl, sym, ap, subst, arith, [], Option, none, some, Bool,
  true, false,
}
use p2ptransfer.Signal.{Client, Promise, pending, resolved, rejected, new_client, wait_open}
use p2ptransfer.Pages.{Payload}
use p2ptransfer.Pages.Send.{
  Page, Shown, File, Handler, Stage, idle, fetching, parsing, opening, through, handle_file, click,
  give_up, room_reply, room_data, fire, on_complete,
}

pub data Card : Type 0 where
  select share transfer complete : Card

-- One card is shown and the others are hidden.
abbrev pub only : Card → Shown
only select = record { select = true; share = false; transfer = false; complete = false }
only share = record { select = false; share = true; transfer = false; complete = false }
only transfer = record { select = false; share = false; transfer = true; complete = false }
only complete = record { select = false; share = false; transfer = false; complete = true }

-- Before the room is there.
pub record Choosing (p : Page) : Type 0 where
  pub no_client : p.client ≡ none
  pub no_engine : p.engine ≡ false
  pub no_timers : p.timers ≡ 0
  pub shown : p.shown ≡ only select

-- The link is shown, and the promise of `waitOpen` stands at `q`.
pub record Linked (q : Promise) (stage : Stage) (c : Client Handler Payload) (p : Page)
    : Type 0 where
  pub has_client : p.client ≡ some c
  pub promise : c.promise ≡ q
  pub no_handlers : c.handlers ≡ []
  pub stands : p.stage ≡ stage
  pub no_engine : p.engine ≡ false
  pub no_timers : p.timers ≡ 0
  pub shown : p.shown ≡ only share

-- The engine is there.
pub record Running (c : Client Handler Payload) (p : Page) : Type 0 where
  pub has_client : p.client ≡ some c
  pub promise : c.promise ≡ resolved
  pub stands : p.stage ≡ through
  pub has_engine : p.engine ≡ true
  pub shown : (p.shown ≡ only share) ⊎ ((p.shown ≡ only transfer) ⊎ (p.shown ≡ only complete))

pub data Stands (p : Page) : Type 0 where
  choosing : Choosing p → Stands p
  waits : (c : Client Handler Payload) → Linked pending opening c p → Stands p
  failed : (c : Client Handler Payload) → Linked rejected idle c p → Stands p
  running : (c : Client Handler Payload) → Running c p → Stands p

-- A page takes files at any time and clicks until it has the link.
pub hidden_click : (p : Page) → p.shown.select ≡ false → click p ≡ p
unfolding click
hidden_click p h = ground (arith, h)

pub no_reply : (ok : Bool) (p : Page) → p.stage ≢ fetching → room_reply ok p ≡ p
unfolding room_reply
no_reply ok p h = ground (arith, h)

pub no_data : (room : Option ℕ) (p : Page) → p.stage ≢ parsing → room_data room p ≡ p
unfolding room_data
no_data none p h = ground (arith, h)
no_data (some room) p h = ground (arith, h)

pub no_fire : (p : Page) → p.timers ≡ 0 → fire p.timers p ≡ p
unfolding fire
no_fire p h = ap (λ n. fire n p) h

pub Linked-select :
    {q : Promise} {s : Stage} {c : Client Handler Payload} {p : Page}
    → Linked q s c p
    → p.shown.select ≡ false
Linked-select l = ap Shown.select l.shown

pub Running-select : {c : Client Handler Payload} {p : Page} → Running c p → p.shown.select ≡ false
Running-select {p = p} r = by_card r.shown
  where
    by_card :
        (p.shown ≡ only share) ⊎ ((p.shown ≡ only transfer) ⊎ (p.shown ≡ only complete))
        → p.shown.select ≡ false
    by_card (inl e) = ap Shown.select e
    by_card (inr (inl e)) = ap Shown.select e
    by_card (inr (inr e)) = ap Shown.select e

-- A file that is chosen, and the events of the card `select` while it is shown.
handle_file-Choosing : (file : File) {p : Page} → Choosing p → Choosing (handle_file file p)
unfolding handle_file
handle_file-Choosing file h = record {
  no_client = h.no_client;
  no_engine = h.no_engine;
  no_timers = h.no_timers;
  shown = h.shown;
}

pub handle_file-Linked :
    (file : File) {q : Promise} {s : Stage} {c : Client Handler Payload} {p : Page}
    → Linked q s c p
    → Linked q s c (handle_file file p)
unfolding handle_file
handle_file-Linked file l = record {
  has_client = l.has_client;
  promise = l.promise;
  no_handlers = l.no_handlers;
  stands = l.stands;
  no_engine = l.no_engine;
  no_timers = l.no_timers;
  shown = l.shown;
}

handle_file-Running :
    (file : File) {c : Client Handler Payload} {p : Page}
    → Running c p
    → Running c (handle_file file p)
unfolding handle_file
handle_file-Running file r = record {
  has_client = r.has_client;
  promise = r.promise;
  stands = r.stands;
  has_engine = r.has_engine;
  shown = r.shown;
}

pub handle_file-Stands : (file : File) (p : Page) → Stands p → Stands (handle_file file p)
handle_file-Stands file p (choosing h) = choosing (handle_file-Choosing file h)
handle_file-Stands file p (waits c l) = waits c (handle_file-Linked file l)
handle_file-Stands file p (failed c l) = failed c (handle_file-Linked file l)
handle_file-Stands file p (running c r) = running c (handle_file-Running file r)

click-Choosing : {p : Page} → Choosing p → Choosing (click p)
unfolding click
click-Choosing h = ground (arith, h.shown, h.no_client, h.no_engine, h.no_timers)

pub click-Stands : (p : Page) → Stands p → Stands (click p)
click-Stands p (choosing h) = choosing (click-Choosing h)
click-Stands p (waits c l) = subst Stands (sym (hidden_click p (Linked-select l))) (waits c l)
click-Stands p (failed c l) = subst Stands (sym (hidden_click p (Linked-select l))) (failed c l)
click-Stands p (running c r) = subst Stands (sym (hidden_click p (Running-select r))) (running c r)

room_reply-Choosing : (ok : Bool) {p : Page} → Choosing p → Choosing (room_reply ok p)
unfolding room_reply give_up
room_reply-Choosing ok h = ground (arith, h.shown, h.no_client, h.no_engine, h.no_timers)

pub room_reply-Stands : (ok : Bool) (p : Page) → Stands p → Stands (room_reply ok p)
room_reply-Stands ok p (choosing h) = choosing (room_reply-Choosing ok h)
room_reply-Stands ok p (waits c l) =
    subst Stands (sym (no_reply ok p (λ e. ground (arith, l.stands, e)))) (waits c l)
room_reply-Stands ok p (failed c l) =
    subst Stands (sym (no_reply ok p (λ e. ground (arith, l.stands, e)))) (failed c l)
room_reply-Stands ok p (running c r) =
    subst Stands (sym (no_reply ok p (λ e. ground (arith, r.stands, e)))) (running c r)

room_data-Choosing : (room : Option ℕ) (p : Page) → Choosing p → Stands (room_data room p)
unfolding room_data give_up wait_open
room_data-Choosing none p h =
    choosing (ground (arith, h.shown, h.no_client, h.no_engine, h.no_timers))
room_data-Choosing (some room) p h = by_stage p.stage
  where
    by_stage :
        (s : Stage)
        → Stands (elim s [
          | parsing ↦ record p {
            share_url = some room;
            shown = record p.shown { select = false; share = true };
            client = some (wait_open new_client);
            stage = opening;
          }
          | idle ↦ p
          | fetching ↦ p
          | opening ↦ p
          | through ↦ p
        ])
    by_stage parsing = waits (wait_open new_client) (record {
      has_client = refl;
      promise = refl;
      no_handlers = refl;
      stands = refl;
      no_engine = h.no_engine;
      no_timers = h.no_timers;
      shown = ground (arith, h.shown);
    })
    by_stage idle = choosing h
    by_stage fetching = choosing h
    by_stage opening = choosing h
    by_stage through = choosing h

pub room_data-Stands : (room : Option ℕ) (p : Page) → Stands p → Stands (room_data room p)
room_data-Stands room p (choosing h) = room_data-Choosing room p h
room_data-Stands room p (waits c l) =
    subst Stands (sym (no_data room p (λ e. ground (arith, l.stands, e)))) (waits c l)
room_data-Stands room p (failed c l) =
    subst Stands (sym (no_data room p (λ e. ground (arith, l.stands, e)))) (failed c l)
room_data-Stands room p (running c r) =
    subst Stands (sym (no_data room p (λ e. ground (arith, r.stands, e)))) (running c r)

-- The timeout of `peer-joined`, if the transfer is not complete.
fire-Running :
    (n : ℕ) (p : Page) (c : Client Handler Payload)
    → Running c p
    → p.shown.complete ≡ false
    → Running c (fire n p)
unfolding fire
fire-Running zero p c r open_yet = r
fire-Running (suc n) p c r open_yet = by_card r.shown
  where
    fired : (p.shown ≡ only share) ⊎ (p.shown ≡ only transfer) → Running c (fire (suc n) p)
    fired either = record {
      has_client = ground (arith, r.has_client);
      promise = r.promise;
      stands = ground (arith, r.stands);
      has_engine = ground (arith, r.has_engine);
      shown = inr (inl (ground (arith, either)));
    }

    by_card :
        (p.shown ≡ only share) ⊎ ((p.shown ≡ only transfer) ⊎ (p.shown ≡ only complete))
        → Running c (fire (suc n) p)
    by_card (inl e) = fired (inl e)
    by_card (inr (inl e)) = fired (inr e)
    by_card (inr (inr e)) = absurd (ground (arith, ap Shown.complete e, open_yet))

pub fire-Stands : (p : Page) → p.shown.complete ≡ false → Stands p → Stands (fire p.timers p)
fire-Stands p o (choosing h) = subst Stands (sym (no_fire p h.no_timers)) (choosing h)
fire-Stands p o (waits c l) = subst Stands (sym (no_fire p l.no_timers)) (waits c l)
fire-Stands p o (failed c l) = subst Stands (sym (no_fire p l.no_timers)) (failed c l)
fire-Stands p o (running c r) = running c (fire-Running p.timers p c r o)

pub no_complete : (p : Page) → p.engine ≡ false → on_complete p ≡ p
unfolding on_complete
no_complete p h = ground (arith, h)

on_complete-Running :
    (p : Page) (c : Client Handler Payload)
    → Running c p
    → p.shown.share ≡ false
    → Running c (on_complete p)
unfolding on_complete
on_complete-Running p c r begun = by_card r.shown
  where
    done : (p.shown ≡ only transfer) ⊎ (p.shown ≡ only complete) → Running c (on_complete p)
    done either = record {
      has_client = ground (arith, r.has_client);
      promise = r.promise;
      stands = ground (arith, r.stands);
      has_engine = ground (arith, r.has_engine);
      shown = inr (inr (ground (arith, r.has_engine, either)));
    }

    by_card :
        (p.shown ≡ only share) ⊎ ((p.shown ≡ only transfer) ⊎ (p.shown ≡ only complete))
        → Running c (on_complete p)
    by_card (inl e) = absurd (ground (arith, ap Shown.share e, begun))
    by_card (inr either) = done either

pub on_complete-Stands : (p : Page) → p.shown.share ≡ false → Stands p → Stands (on_complete p)
on_complete-Stands p o (choosing h) = subst Stands (sym (no_complete p h.no_engine)) (choosing h)
on_complete-Stands p o (waits c l) = subst Stands (sym (no_complete p l.no_engine)) (waits c l)
on_complete-Stands p o (failed c l) = subst Stands (sym (no_complete p l.no_engine)) (failed c l)
on_complete-Stands p o (running c r) = running c (on_complete-Running p c r o)
