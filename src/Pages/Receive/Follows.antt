-- ===== src/Pages/Receive/Follows.antt =====
-- What the events of the receive page change of its client and its calls, once it has started.
use p2ptransfer.Base.{
  ℕ, ◌≡◌, refl, sym, ap, ◌∙◌, subst, arith, List, [], ◌∷◌, ◌++◌, append-nil, Option, none, some,
  true, lookup,
}
use p2ptransfer.Signal.{Client, receives, calls_of}
use p2ptransfer.Pages.{Payload}
use p2ptransfer.Pages.Receive.{
  Page, Call, handle_offer, add_ice_candidate, Handler, on_offer, on_candidate, on_disconnected,
  handle, handle_all, show_transfer, on_file_info, on_complete, start_unless_started, tick, click,
}

-- What a page keeps of another, and the calls that it has made beyond it.
pub record Follows (p q : Page) (more : List Call) : Type 0 where
  pub client : q.client ≡ p.client
  pub started : q.receive_started ≡ p.receive_started
  pub calls : q.calls ≡ p.calls ++ more

pub still :
    (p q : Page)
    → q.client ≡ p.client
    → q.receive_started ≡ p.receive_started
    → q.calls ≡ p.calls
    → Follows p q []
still p q c s k = record { client = c; started = s; calls = k ∙ sym (append-nil p.calls) }

pub tick-Follows : (p : Page) → p.receive_started ≡ true → Follows p (tick p) []
unfolding tick start_unless_started
tick-Follows p s = still p (tick p) (ground (arith, s)) (ground (arith, s)) (ground (arith, s))

pub click-Follows : (p : Page) → p.receive_started ≡ true → Follows p (click p) []
unfolding click start_unless_started
click-Follows p s = still p (click p) (ground (arith, s)) (ground (arith, s)) (ground (arith, s))

pub on_file_info-Follows :
    (name : _) (size : ℕ) (p : Page) → Follows p (on_file_info name size p) []
unfolding on_file_info
on_file_info-Follows name size p =
    still p (on_file_info name size p) (ground arith) (ground arith) (ground arith)

pub on_complete-Follows : (p : Page) → Follows p (on_complete p) []
unfolding on_complete
on_complete-Follows p = still p (on_complete p) (ground arith) (ground arith) (ground arith)

-- The call that a handler makes.
abbrev pub call_of : Handler → Payload → List Call
call_of on_offer m = handle_offer m.index ∷ []
call_of on_candidate m = add_ice_candidate m.index m.candidate ∷ []
call_of on_disconnected m = []

handle-Follows : (h : Handler) (m : Payload) (p : Page) → Follows p (handle h m p) (call_of h m)
unfolding handle show_transfer
handle-Follows on_offer m p = record {
  client = ground arith;
  started = ground arith;
  calls = ground arith;
}
handle-Follows on_candidate m p = record { client = refl; started = refl; calls = refl }
handle-Follows on_disconnected m p = still p p refl refl refl

abbrev pub calls_of_option : Option Handler → Payload → List Call
calls_of_option none m = []
calls_of_option (some h) m = call_of h m

-- A message, with the handler that its type has.
pub receives-Follows :
    (kind : ℕ) (m : Payload) (c : Client Handler Payload) (p : Page) (o : Option Handler)
    → lookup kind c.handlers ≡ o
    → Follows p (handle_all (calls_of (receives (some (kind, m))) c) p) (calls_of_option o m)
unfolding handle_all calls_of
receives-Follows kind m c p none at =
    subst (λ hs. Follows p (handle_all hs p) [])
      (sym (
        ap
          (λ (o : Option Handler). elim o as (λ x. List (Handler × Payload)) [
            | none ↦ []
            | some h ↦ (h, m) ∷ []
          ])
          at))
      (still p p refl refl refl)
receives-Follows kind m c p (some h) at =
    subst (λ hs. Follows p (handle_all hs p) (call_of h m))
      (sym (
        ap
          (λ (o : Option Handler). elim o as (λ x. List (Handler × Payload)) [
            | none ↦ []
            | some g ↦ (g, m) ∷ []
          ])
          at))
      (handle-Follows h m p)
