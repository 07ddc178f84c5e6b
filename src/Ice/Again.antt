-- ===== src/Ice/Again.antt =====
-- A second `createOffer` on the sender's engine.
use p2ptransfer.Base.{
  ℕ, zero, suc, ◌+◌, ◌<◌, ◌≡◌, refl, sym, ap, ◌∙◌, subst, List, [], ◌∷◌, ◌++◌, some, arith, All,
  drop, true, false, ◌==◌, ==_false, append-nil, append_assoc, Bool, if◌then◌else◌, length,
}
use p2ptransfer.Ice.{
  Link, new_link, Task, Negotiation, new_negotiation, Event, candidates, offers, answers, creates,
  resumes, refuses, step, run, add_candidate, handle_answer, push, create_links, resume_negotiation,
  refuse,
}
use p2ptransfer.Ice.Handlers.{
  Keeps, add_candidate-Keeps, handle_answer-Keeps, resume_negotiation-Keeps, refuse-Keeps,
}

-- What happens on the sender's side.
abbrev pub IsSending : Event → Type 0
IsSending (candidates c) = Unit {0}
IsSending offers = ⊥
IsSending answers = Unit {0}
IsSending creates = Unit {0}
IsSending (resumes t) = Unit {0}
IsSending (refuses t) = Unit {0}

-- Connections that nothing has been done to, one for each `createOffer`.
abbrev pub untouched : List Event → List Link
untouched [] = []
untouched (creates ∷ es) = new_link ∷ untouched es
untouched (candidates c ∷ es) = untouched es
untouched (offers ∷ es) = untouched es
untouched (answers ∷ es) = untouched es
untouched (resumes t ∷ es) = untouched es
untouched (refuses t ∷ es) = untouched es

-- A push behind the place of the index `k`.
record Pushed (later : List Link) (k : ℕ) (n : Negotiation) : Type 0 where
  kept : Keeps later n
  index : n.index ≡ k

abbrev with_link : Bool → List Link → List Link
with_link b later = if b then later ++ new_link ∷ [] else later

push-Pushed :
    (i k : ℕ) {later : List Link} {n : Negotiation}
    → Pushed later k n
    → Pushed (with_link (i == k) later) k (push i n)
unfolding push
push-Pushed i k {later} {n} h =
    let v = h.kept in
    subst
      (λ full. Pushed (with_link (i == k) later) k (
        if full
        then record n {
          size = n.size + 1;
          links = n.links ++ new_link ∷ [];
          current = some (length n.links);
        }
        else if i == n.index
        then record n { size = n.size + 1; links = n.links ++ new_link ∷ [] }
        else record n { size = n.size + 1 }))
      (sym (==_false n.size n.index (λ e. omega (arith, e, v.behind))))
      (subst
        (λ j. Pushed (with_link (i == k) later) k (
          if i == j
          then record n { size = n.size + 1; links = n.links ++ new_link ∷ [] }
          else record n { size = n.size + 1 }))
        (sym h.index) (by_test (i == k)))
  where
    by_test :
        (b : Bool)
        → Pushed (with_link b later) k (
            if b
            then record n { size = n.size + 1; links = n.links ++ new_link ∷ [] }
            else record n { size = n.size + 1 })
    by_test true = record {
      kept = record {
        first = h.kept.first;
        links = ap (λ ls. ls ++ new_link ∷ []) h.kept.links;
        current = h.kept.current;
        few = h.kept.few;
        behind = omega (arith, h.kept.behind);
        tasks = h.kept.tasks;
      };
      index = h.index;
    }
    by_test false = record {
      kept = record {
        first = h.kept.first;
        links = h.kept.links;
        current = h.kept.current;
        few = h.kept.few;
        behind = omega (arith, h.kept.behind);
        tasks = h.kept.tasks;
      };
      index = h.index;
    }

-- One of the four connections carries the index.
one_of_four :
    (k : ℕ) (later : List Link)
    → k < 4
    → with_link (3 == k) (with_link (2 == k) (with_link (1 == k) (with_link (0 == k) later)))
      ≡ later ++ new_link ∷ []
one_of_four zero later h = refl
one_of_four (suc zero) later h = refl
one_of_four (suc (suc zero)) later h = refl
one_of_four (suc (suc (suc zero))) later h = refl
one_of_four (suc (suc (suc (suc k)))) later h = absurd (omega (arith, h))

create_links-Keeps :
    {later : List Link} {n : Negotiation}
    → Keeps later n
    → Keeps (later ++ new_link ∷ []) (create_links n)
unfolding create_links
create_links-Keeps {later} {n} v =
    subst (λ ls. Keeps ls (create_links n)) (one_of_four n.index later v.few)
      (push-Pushed 3 n.index (
        push-Pushed 2 n.index
          (push-Pushed 1 n.index (push-Pushed 0 n.index (record { kept = v; index = refl }))))).kept

step-Keeps :
    (e : Event) {later : List Link} {n : Negotiation}
    → IsSending e
    → Keeps later n
    → Keeps (later ++ untouched (e ∷ [])) (step e n)
unfolding step
step-Keeps (candidates c) {later} {n} q v =
    subst (λ ls. Keeps ls (add_candidate c n)) (sym (append-nil later)) (add_candidate-Keeps c v)
step-Keeps offers q v = absurd q
step-Keeps answers {later} {n} q v =
    subst (λ ls. Keeps ls (handle_answer n)) (sym (append-nil later)) (handle_answer-Keeps v)
step-Keeps creates q v = create_links-Keeps v
step-Keeps (resumes t) {later} {n} q v =
    subst (λ ls. Keeps ls (resume_negotiation t n)) (sym (append-nil later))
      (resume_negotiation-Keeps t v)
step-Keeps (refuses t) {later} {n} q v =
    subst (λ ls. Keeps ls (refuse t n)) (sym (append-nil later)) (refuse-Keeps t v)

untouched-cons :
    (e : Event) (es : List Event) → untouched (e ∷ []) ++ untouched es ≡ untouched (e ∷ es)
untouched-cons (candidates c) es = refl
untouched-cons offers es = refl
untouched-cons answers es = refl
untouched-cons creates es = refl
untouched-cons (resumes t) es = refl
untouched-cons (refuses t) es = refl

run-Keeps :
    (es : List Event) {later : List Link} {n : Negotiation}
    → All IsSending es
    → Keeps later n
    → Keeps (later ++ untouched es) (run es n)
unfolding run
run-Keeps [] {later} {n} q v = subst (λ ls. Keeps ls n) (sym (append-nil later)) v
run-Keeps (e ∷ es) {later} {n} q v =
    subst (λ ls. Keeps ls (run es (step e n)))
      (append_assoc later (untouched (e ∷ [])) (untouched es)
        ∙ ap (λ ls. later ++ ls) (untouched-cons e es))
      (run-Keeps es q.1 (step-Keeps e q.0 v))

-- The first `createOffer` puts a connection at the place of each index below `NUM_P2P`.
create_links-new : (k : ℕ) → k < 4 → Keeps [] (create_links (new_negotiation k))
unfolding create_links push
create_links-new zero h = record {
  first = new_link;
  links = refl;
  current = refl;
  few = h;
  behind = omega arith;
  tasks = tt;
}
create_links-new (suc zero) h = record {
  first = new_link;
  links = refl;
  current = refl;
  few = h;
  behind = omega arith;
  tasks = tt;
}
create_links-new (suc (suc zero)) h = record {
  first = new_link;
  links = refl;
  current = refl;
  few = h;
  behind = omega arith;
  tasks = tt;
}
create_links-new (suc (suc (suc zero))) h = record {
  first = new_link;
  links = refl;
  current = refl;
  few = h;
  behind = omega arith;
  tasks = tt;
}
create_links-new (suc (suc (suc (suc k)))) h = absurd (omega (arith, h))

-- The sender has called `createOffer`, and the index is one of its connections'. Whatever comes then,
-- answers, candidates and further calls of `createOffer` in any order and with any interleaving at the
-- awaits, the connection of the first call keeps the place of the index and every handler is about
-- it; each further call has pushed one more connection with that index, and no description and no
-- candidate has reached any of these.
pub run-first :
    (k : ℕ) (es : List Event)
    → k < 4
    → All IsSending es
    → ((run (creates ∷ es) (new_negotiation k)).current ≡ some 0)
      × All (λ (t : Task). t.link ≡ 0) (run (creates ∷ es) (new_negotiation k)).tasks
      × (drop 1 (run (creates ∷ es) (new_negotiation k)).links ≡ untouched es)
unfolding run step
run-first k es few q =
    let v = run-Keeps es q (create_links-new k few) in (v.current, v.tasks, ap (drop 1) v.links)
