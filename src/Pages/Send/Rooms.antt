-- ===== src/Pages/Send/Rooms.antt =====
-- What the events of the send page do to the number of rooms it has asked the server for.
use p2ptransfer.Base.{
  ℕ, zero, suc, ◌+◌, ◌≤◌, ◌≡◌, refl, sym, ◌∙◌, subst, arith, List, [], ◌∷◌, Option, none, some,
  Bool, true, false, not, ◌&&◌, ◌++◌, if◌then◌else◌,
}
use p2ptransfer.Signal
use p2ptransfer.Signal.{
  Client, Promise, pending, resolved, unasked, rejected, Event, opens, errors, ends, receives,
  calls_of, wait_open, new_client,
}
use p2ptransfer.Pages.{Payload}
use p2ptransfer.Pages.Send.{
  Page, File, Stage, idle, fetching, parsing, opening, through, create_offer, Handler, on_joined,
  on_answer, on_candidate, on_disconnected, handle, handle_all, start_engine, give_up, continue,
  on_socket, handle_file, click, room_reply, room_data, fire,
}

-- With `n` requests failed, one more may be under way or have been answered; with the button ready
-- for a click, none is.
pub record Asked (n : ℕ) (p : Page) : Type 0 where
  pub at_most : p.rooms ≤ suc n
  pub none_open : p.shown.select ≡ true → p.disabled ≡ false → p.rooms ≤ n
  pub hidden : p.shown.select ≡ true → p.client ≡ none

-- What a later page keeps.
pub record Kept (p q : Page) : Type 0 where
  pub rooms : q.rooms ≡ p.rooms
  pub select : q.shown.select ≡ p.shown.select

handle-Kept : (h : Handler) (m : Payload) (p : Page) → Kept p (handle h m p)
unfolding handle
handle-Kept on_joined m p = record { rooms = refl; select = refl }
handle-Kept on_answer m p = record { rooms = refl; select = refl }
handle-Kept on_candidate m p = record { rooms = refl; select = refl }
handle-Kept on_disconnected m p = record { rooms = refl; select = refl }

handle_all-Kept : (hs : List (Handler × Payload)) (p : Page) → Kept p (handle_all hs p)
unfolding handle_all
handle_all-Kept [] p = record { rooms = refl; select = refl }
handle_all-Kept ((h, m) ∷ hs) p =
    let first = handle-Kept h m p in
    let rest = handle_all-Kept hs (handle h m p) in
    record { rooms = rest.rooms ∙ first.rooms; select = rest.select ∙ first.select }

continue-Kept : (a b : Promise) (c : Client Handler Payload) (p : Page) → Kept p (continue a b c p)
unfolding continue start_engine give_up
continue-Kept pending resolved c p = record { rooms = refl; select = refl }
continue-Kept pending rejected c p = record { rooms = refl; select = refl }
continue-Kept pending pending c p = record { rooms = refl; select = refl }
continue-Kept pending unasked c p = record { rooms = refl; select = refl }
continue-Kept unasked b c p = record { rooms = refl; select = refl }
continue-Kept resolved b c p = record { rooms = refl; select = refl }
continue-Kept rejected b c p = record { rooms = refl; select = refl }

linked_hidden :
    {n : ℕ} {p : Page} {c : Client Handler Payload}
    → Asked n p
    → p.client ≡ some c
    → p.shown.select ≡ false
linked_hidden {p = p} a at = by_card p.shown.select refl
  where
    by_card : (b : Bool) → p.shown.select ≡ b → b ≡ false
    by_card false s = refl
    by_card true s = ground (arith, at, a.hidden s)

hidden-Asked : {n : ℕ} {p : Page} → p.rooms ≤ suc n → p.shown.select ≡ false → Asked n p
hidden-Asked b s = record {
  at_most = b;
  none_open = λ t d. ground (arith, s, t);
  hidden = λ t. ground (arith, s, t);
}

-- Behind an event of the socket the card of the choice is still hidden.
pub on_socket-Asked :
    (n : ℕ) (e : Event Handler Payload) (p : Page) → Asked n p → Asked n (on_socket e p)
unfolding on_socket
on_socket-Asked n e p a = by_client p.client refl
  where
    by_client :
        (o : Option (Client Handler Payload))
        → p.client ≡ o
        → Asked n (elim o as (λ x. Page) [
          | none ↦ p
          | some c ↦
              let c' = Signal.step e c in
              continue c.promise c'.promise c'
                (handle_all (calls_of e c) (record p { client = some c' }))
        ])
    by_client none at = a
    by_client (some c) at =
        let q = record p { client = some (Signal.step e c) } in
        let served = handle_all-Kept (calls_of e c) q in
        let k =
          continue-Kept c.promise (Signal.step e c).promise (Signal.step e c)
            (handle_all (calls_of e c) q) in
        hidden-Asked (subst (λ r. r ≤ suc n) (sym (k.rooms ∙ served.rooms)) a.at_most)
          (k.select ∙ served.select ∙ linked_hidden a at)

more-Asked : {n : ℕ} {p : Page} → Asked n p → Asked (suc n) p
more-Asked a = record {
  at_most = omega (arith, a.at_most);
  none_open = λ s d. a.at_most;
  hidden = a.hidden;
}

pub handle_file-Asked : (n : ℕ) (file : _) (p : Page) → Asked n p → Asked n (handle_file file p)
unfolding handle_file
handle_file-Asked n file p a = record {
  at_most = a.at_most;
  none_open = a.none_open;
  hidden = a.hidden;
}

pub click-Asked : (n : ℕ) (p : Page) → Asked n p → Asked n (click p)
unfolding click
click-Asked n p a = by_button p.shown.select p.disabled p.selected_file refl refl
  where
    by_button :
        (s d : Bool) (f : Option File)
        → p.shown.select ≡ s
        → p.disabled ≡ d
        → Asked n (
            if s && not d
            then elim f as (λ x. Page) [
              | none ↦ p
              | some file ↦ record p { disabled = true; stage = fetching; rooms = p.rooms + 1 }
            ]
            else p)
    by_button false d f s e = a
    by_button true true f s e = a
    by_button true false none s e = a
    by_button true false (some file) s e = record {
      at_most = omega (arith, a.none_open s e);
      none_open = λ t u. ground (arith, u);
      hidden = a.hidden;
    }

give_up-Asked : (n : ℕ) (p : Page) → Asked n p → Asked (suc n) (give_up p)
unfolding give_up
give_up-Asked n p a = record {
  at_most = omega (arith, a.at_most);
  none_open = λ s d. a.at_most;
  hidden = a.hidden;
}

pub reply_failed : (n : ℕ) (p : Page) → Asked n p → Asked (suc n) (room_reply false p)
unfolding room_reply
reply_failed n p a = by_stage p.stage
  where
    by_stage :
        (s : Stage)
        → Asked
            (suc n)
            (elim s [ fetching ↦ give_up p | idle ↦ p | parsing ↦ p | opening ↦ p | through ↦ p ])
    by_stage fetching = give_up-Asked n p a
    by_stage idle = more-Asked a
    by_stage parsing = more-Asked a
    by_stage opening = more-Asked a
    by_stage through = more-Asked a

pub reply_came : (n : ℕ) (p : Page) → Asked n p → Asked n (room_reply true p)
unfolding room_reply
reply_came n p a = by_stage p.stage
  where
    by_stage :
        (s : Stage)
        → Asked n (elim s [
          | fetching ↦ record p { stage = parsing }
          | idle ↦ p
          | parsing ↦ p
          | opening ↦ p
          | through ↦ p
        ])
    by_stage fetching = record { at_most = a.at_most; none_open = a.none_open; hidden = a.hidden }
    by_stage idle = a
    by_stage parsing = a
    by_stage opening = a
    by_stage through = a

pub no_room : (n : ℕ) (p : Page) → Asked n p → Asked (suc n) (room_data none p)
unfolding room_data
no_room n p a = by_stage p.stage
  where
    by_stage :
        (s : Stage)
        → Asked
            (suc n)
            (elim s [ parsing ↦ give_up p | idle ↦ p | fetching ↦ p | opening ↦ p | through ↦ p ])
    by_stage parsing = give_up-Asked n p a
    by_stage idle = more-Asked a
    by_stage fetching = more-Asked a
    by_stage opening = more-Asked a
    by_stage through = more-Asked a

pub room_came : (n : ℕ) (room : ℕ) (p : Page) → Asked n p → Asked n (room_data (some room) p)
unfolding room_data
room_came n room p a = by_stage p.stage
  where
    by_stage :
        (s : Stage)
        → Asked n (elim s [
          | parsing ↦ record p {
            share_url = some room;
            shown = record p.shown { select = false; share = true };
            client = some (wait_open new_client);
            stage = opening;
          }
          | idle ↦ p
          | fetching ↦ p
          | opening ↦ p
          | through ↦ p
        ])
    by_stage parsing = hidden-Asked a.at_most refl
    by_stage idle = a
    by_stage fetching = a
    by_stage opening = a
    by_stage through = a

pub fire-Asked : (n k : ℕ) (p : Page) → Asked n p → Asked n (fire k p)
unfolding fire
fire-Asked n zero p a = a
fire-Asked n (suc k) p a = by_file p.selected_file
  where
    by_file :
        (f : Option File)
        → Asked n (elim f as (λ x. Page) [
          | none ↦ record p {
            timers = k;
            shown = record p.shown { share = false; transfer = true };
          }
          | some file ↦ record p {
            timers = k;
            shown = record p.shown { share = false; transfer = true };
            calls = p.calls ++ create_offer file ∷ [];
          }
        ])
    by_file none = record { at_most = a.at_most; none_open = a.none_open; hidden = a.hidden }
    by_file (some file) = record { at_most = a.at_most; none_open = a.none_open; hidden = a.hidden }
