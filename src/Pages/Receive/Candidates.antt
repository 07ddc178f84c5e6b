-- ===== src/Pages/Receive/Candidates.antt =====
-- From the messages of the signaling server to the connections: the receive page in front of
-- `handleOffer` and `addIceCandidate` on one connection index.
use p2ptransfer.Base.{
  ℕ, ◌≡◌, refl, sym, ap, ap₂, ◌∙◌, subst, arith, List, [], ◌∷◌, ◌++◌, append_assoc, append-nil, map,
  Option, none, some, Bool, true, false, ◌==◌, if◌then◌else◌, All,
}
use p2ptransfer.Ice
use p2ptransfer.Ice.{candidates, offers, answers, creates, resumes, refuses, new_negotiation}
use p2ptransfer.Ice.Once.{given, given_by, IsPlain, Alone, run-offer}
use p2ptransfer.Signal.{Client}
use p2ptransfer.Pages.{Payload, offer_kind, candidate_kind}
use p2ptransfer.Pages.Receive.{
  Page, Call, start_relay_receiver, handle_offer, add_ice_candidate, Handler, PageEvent, ticks,
  clicks, socket_opens, socket_errors, socket_ends, messages, file_info, completes, run,
}
use p2ptransfer.Pages.Receive.Relayed.{Joined, asked_by, asked, run-asked}

-- What the calls of the page are for the connection of index `i`.
abbrev pub at_index : ℕ → Call → List Ice.Event
at_index i start_relay_receiver = []
at_index i (handle_offer j) = if j == i then offers ∷ [] else []
at_index i (add_ice_candidate j c) = if j == i then candidates c ∷ [] else []

abbrev pub at_index_all : ℕ → List Call → List Ice.Event
at_index_all i [] = []
at_index_all i (call ∷ calls) = at_index i call ++ at_index_all i calls

-- The events of a negotiation that are calls from outside; the others are ends of awaits.
abbrev pub inputs : List Ice.Event → List Ice.Event
inputs [] = []
inputs (candidates c ∷ es) = candidates c ∷ inputs es
inputs (offers ∷ es) = offers ∷ inputs es
inputs (answers ∷ es) = answers ∷ inputs es
inputs (creates ∷ es) = creates ∷ inputs es
inputs (resumes t ∷ es) = inputs es
inputs (refuses t ∷ es) = inputs es

-- The candidates for index `i` among the messages of the server.
abbrev pub delivered_by : ℕ → PageEvent → List ℕ
delivered_by i (messages (some (kind, m))) =
    if kind == candidate_kind
    then (if m.index == i then given_by (candidates m.candidate) else [])
    else []
delivered_by i (messages none) = []
delivered_by i ticks = []
delivered_by i clicks = []
delivered_by i socket_opens = []
delivered_by i socket_errors = []
delivered_by i socket_ends = []
delivered_by i (file_info name size) = []
delivered_by i completes = []

abbrev pub delivered : ℕ → List PageEvent → List ℕ
delivered i [] = []
delivered i (e ∷ es) = delivered_by i e ++ delivered i es

given-append : (xs ys : List Ice.Event) → given (xs ++ ys) ≡ given xs ++ given ys
given-append [] ys = refl
given-append (x ∷ xs) ys =
    ap (λ rest. given_by x ++ rest) (given-append xs ys)
    ∙ sym (append_assoc (given_by x) (given xs) (given ys))

given-inputs : (es : List Ice.Event) → given (inputs es) ≡ given es
given-inputs [] = refl
given-inputs (candidates c ∷ es) = ap (λ rest. given_by (candidates c) ++ rest) (given-inputs es)
given-inputs (offers ∷ es) = given-inputs es
given-inputs (answers ∷ es) = given-inputs es
given-inputs (creates ∷ es) = given-inputs es
given-inputs (resumes t ∷ es) = given-inputs es
given-inputs (refuses t ∷ es) = given-inputs es

at_index_all-append :
    (i : ℕ) (xs ys : List Call) → at_index_all i (xs ++ ys) ≡ at_index_all i xs ++ at_index_all i ys
at_index_all-append i [] ys = refl
at_index_all-append i (x ∷ xs) ys =
    ap (λ rest. at_index i x ++ rest) (at_index_all-append i xs ys)
    ∙ sym (append_assoc (at_index i x) (at_index_all i xs) (at_index_all i ys))

-- A call for index `j` gives its candidate if `j` is the index.
given-offer : (i j : ℕ) → given (at_index i (handle_offer j) ++ []) ≡ []
given-offer i j = by_test (j == i)
  where
    by_test : (b : Bool) → given ((if b then offers ∷ [] else []) ++ []) ≡ []
    by_test true = refl
    by_test false = refl

given-candidate :
    (i j : ℕ) (c : Option ℕ)
    → given (at_index i (add_ice_candidate j c) ++ [])
      ≡ (if j == i then given_by (candidates c) else [])
given-candidate i j c = by_test (j == i)
  where
    by_test :
        (b : Bool)
        → given ((if b then candidates c ∷ [] else []) ++ [])
          ≡ (if b then given_by (candidates c) else [])
    by_test true = append-nil (given_by (candidates c))
    by_test false = refl

given-message :
    (i : ℕ) (m : Payload) (a b : Bool)
    → (a ≡ true → b ≡ false)
    → given (
        at_index_all i (
          if a
          then handle_offer m.index ∷ []
          else if b
          then add_ice_candidate m.index m.candidate ∷ []
          else []))
      ≡ (if b then (if m.index == i then given_by (candidates m.candidate) else []) else [])
given-message i m true true h = ground (arith, h refl)
given-message i m true false h = given-offer i m.index
given-message i m false true h = given-candidate i m.index m.candidate
given-message i m false false h = refl

offer_no_candidate : (kind : ℕ) → (kind == offer_kind) ≡ true → (kind == candidate_kind) ≡ false
offer_no_candidate kind h = ground (arith, h)

given-asked_by : (i : ℕ) (e : PageEvent) → given (at_index_all i (asked_by e)) ≡ delivered_by i e
given-asked_by i (messages (some (kind, m))) =
    given-message i m (kind == offer_kind) (kind == candidate_kind) (offer_no_candidate kind)
given-asked_by i (messages none) = refl
given-asked_by i ticks = refl
given-asked_by i clicks = refl
given-asked_by i socket_opens = refl
given-asked_by i socket_errors = refl
given-asked_by i socket_ends = refl
given-asked_by i (file_info name size) = refl
given-asked_by i completes = refl

given-asked : (i : ℕ) (es : List PageEvent) → given (at_index_all i (asked es)) ≡ delivered i es
given-asked i [] = refl
given-asked i (e ∷ es) =
    ap given (at_index_all-append i (asked_by e) (asked es))
    ∙ given-append (at_index_all i (asked_by e)) (at_index_all i (asked es))
    ∙ ap₂ ◌++◌ (given-asked_by i e) (given-asked i es)

-- A page that has its engine, and has made no call for index `i` yet, takes any events. If the calls
-- that it makes for that index are the inputs of the negotiation, one offer with candidates on both
-- sides, with the ends of its awaits anywhere in between, then each candidate that the server
-- delivered for the index is in exactly one place, none has been added before the remote description
-- is set, and once the handler of the offer has returned all have been added, once each.
pub run-candidates :
    (i : ℕ) (es : List PageEvent) (c : Client Handler Payload) (p : Page) (before : List (Option ℕ))
    (after : List Ice.Event)
    → Joined c p
    → at_index_all i p.calls ≡ []
    → All IsPlain after
    → inputs (map candidates before ++ (offers ∷ after)) ≡ at_index_all i (run es p).calls
    → Alone
        (delivered i es)
        (Ice.run (map candidates before ++ (offers ∷ after)) (new_negotiation i))
run-candidates i es c p before after j fresh plain same =
    subst
      (λ came. Alone came (Ice.run (map candidates before ++ (offers ∷ after)) (new_negotiation i)))
      (sym (given-append (map candidates before) (offers ∷ after))
        ∙ sym (given-inputs (map candidates before ++ (offers ∷ after)))
        ∙ ap given (
            same
            ∙ ap (at_index_all i) (run-asked es c p j)
            ∙ at_index_all-append i p.calls (asked es)
            ∙ ap (λ front. front ++ at_index_all i (asked es)) fresh)
        ∙ given-asked i es)
      (run-offer i before after plain)
