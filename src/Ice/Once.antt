-- ===== src/Ice/Once.antt =====
-- One offer, with candidates before it and after it, at every await.
use p2ptransfer.Base.{
  ℕ, zero, suc, ◌+◌, max, ◌≡◌, refl, sym, ap, ◌∙◌, subst, List, [], ◌∷◌, ◌++◌, none, some, true,
  false, arith, count, count-append, append-nil, append_assoc, All, map, Option,
}
use p2ptransfer.Ice.{
  Link, Stage, describing, adding_early, adding_pending, past, Negotiation, new_negotiation, Event,
  candidates, offers, answers, creates, resumes, refuses, step, run, add_candidate, handle_offer,
  resume_negotiation, take_candidate, on_link, at_stage, pending_of, go_on, new_link,
}

-- The candidates that come.
abbrev pub given_by : Event → List ℕ
given_by (candidates none) = []
given_by (candidates (some c)) = c ∷ []
given_by offers = []
given_by answers = []
given_by creates = []
given_by (resumes t) = []
given_by (refuses t) = []

abbrev pub given : List Event → List ℕ
given [] = []
given (e ∷ es) = given_by e ++ given es

-- A candidate, or an await that ends.
abbrev pub IsPlain : Event → Type 0
IsPlain (candidates c) = Unit {0}
IsPlain offers = ⊥
IsPlain answers = ⊥
IsPlain creates = ⊥
IsPlain (resumes t) = Unit {0}
IsPlain (refuses t) = ⊥

-- The index has had one connection, which one offer made.
abbrev pub one : ℕ → ℕ → Link → List ℕ → Stage → Negotiation
one index size l early stage = record {
  index = index;
  size = size;
  links = l ∷ [];
  current = some 0;
  early = early;
  tasks = record { link = 0; stage = stage } ∷ [];
}

-- Where the candidates `came` are: nothing is added before the description is set, and none is lost
-- or added twice.
abbrev pub Placed : List ℕ → Link → List ℕ → Stage → Type 0
Placed came l early (describing b) =
    (b ≡ true)
    × (l.described ≡ false)
    × (l.added ≡ [])
    × ((a : ℕ) → count a early + count a l.pending ≡ count a came)
Placed came l early (adding_early cs) =
    (l.described ≡ true)
    × ((a : ℕ) → count a l.added + count a cs + count a l.pending ≡ count a came)
Placed came l early (adding_pending cs) =
    (l.described ≡ true) × (early ≡ []) × ((a : ℕ) → count a l.added + count a cs ≡ count a came)
Placed came l early past =
    (l.described ≡ true) × (early ≡ []) × ((a : ℕ) → count a l.added ≡ count a came)

pub record Alone (came : List ℕ) (n : Negotiation) : Type 0 where
  pub index : ℕ
  pub size : ℕ
  pub link : Link
  pub early : List ℕ
  pub stage : Stage
  pub same : n ≡ one index size link early stage
  pub placed : Placed came link early stage

candidate-Placed :
    (c : ℕ) (came : List ℕ) (l : Link) (early : List ℕ) (stage : Stage)
    → Placed came l early stage
    → Placed (came ++ c ∷ []) (take_candidate c l) early stage
unfolding take_candidate
candidate-Placed c came l early (describing b) (is, off, none_added, counts) = (
  is,
  ground (arith, off),
  ground (arith, off, none_added),
  λ a.
      ground
        (arith, off, counts a, count-append a came (c ∷ []), count-append a l.pending (c ∷ [])),
)
candidate-Placed c came l early (adding_early cs) (on, counts) = (
  ground (arith, on),
  λ a. ground (arith, on, counts a, count-append a came (c ∷ []), count-append a l.added (c ∷ [])),
)
candidate-Placed c came l early (adding_pending cs) (on, gone, counts) = (
  ground (arith, on),
  gone,
  λ a. ground (arith, on, counts a, count-append a came (c ∷ []), count-append a l.added (c ∷ [])),
)
candidate-Placed c came l early past (on, gone, counts) = (
  ground (arith, on),
  gone,
  λ a. ground (arith, on, counts a, count-append a came (c ∷ []), count-append a l.added (c ∷ [])),
)

resume_negotiation-Alone :
    (i m : ℕ) (came : List ℕ) (l : Link) (early : List ℕ) (stage : Stage)
    → Placed came l early stage
    → Alone came (resume_negotiation 0 (one i m l early stage))
unfolding resume_negotiation go_on on_link at_stage pending_of
resume_negotiation-Alone i m came l early (describing true) (is, off, none_added, counts) = record {
  index = i;
  size = m;
  link = record l { described = true };
  early = early;
  stage = adding_early early;
  same = refl;
  placed = (refl, λ a. omega (arith, counts a, ap (count a) none_added));
}
resume_negotiation-Alone i m came l early (describing false) (is, off, none_added, counts) =
    absurd (ground (arith, is))
resume_negotiation-Alone i m came l early (adding_early []) (on, counts) = record {
  index = i;
  size = m;
  link = l;
  early = [];
  stage = adding_pending l.pending;
  same = refl;
  placed = (on, refl, λ a. omega (arith, counts a));
}
resume_negotiation-Alone i m came l early (adding_early (c ∷ cs)) (on, counts) = record {
  index = i;
  size = m;
  link = record l { added = l.added ++ c ∷ [] };
  early = early;
  stage = adding_early cs;
  same = refl;
  placed = (on, λ a. ground (arith, counts a, count-append a l.added (c ∷ [])));
}
resume_negotiation-Alone i m came l early (adding_pending []) (on, gone, counts) = record {
  index = i;
  size = m;
  link = record l { pending = [] };
  early = early;
  stage = past;
  same = refl;
  placed = (on, gone, λ a. omega (arith, counts a));
}
resume_negotiation-Alone i m came l early (adding_pending (c ∷ cs)) (on, gone, counts) = record {
  index = i;
  size = m;
  link = record l { added = l.added ++ c ∷ [] };
  early = early;
  stage = adding_pending cs;
  same = refl;
  placed = (on, gone, λ a. ground (arith, counts a, count-append a l.added (c ∷ [])));
}
resume_negotiation-Alone i m came l early past h = record {
  index = i;
  size = m;
  link = l;
  early = early;
  stage = past;
  same = refl;
  placed = h;
}

step-one :
    (i m : ℕ) (e : Event) (came : List ℕ) (l : Link) (early : List ℕ) (stage : Stage)
    → IsPlain e
    → Placed came l early stage
    → Alone (came ++ given_by e) (step e (one i m l early stage))
unfolding step add_candidate on_link resume_negotiation
step-one i m (candidates none) came l early stage q h =
    subst (λ cs. Alone cs (one i m l early stage)) (sym (append-nil came))
      (record {
        index = i;
        size = m;
        link = l;
        early = early;
        stage = stage;
        same = refl;
        placed = h;
      })
step-one i m (candidates (some c)) came l early stage q h = record {
  index = i;
  size = m;
  link = take_candidate c l;
  early = early;
  stage = stage;
  same = refl;
  placed = candidate-Placed c came l early stage h;
}
step-one i m (resumes zero) came l early stage q h =
    subst (λ cs. Alone cs (resume_negotiation 0 (one i m l early stage))) (sym (append-nil came))
      (resume_negotiation-Alone i m came l early stage h)
step-one i m (resumes (suc t)) came l early stage q h =
    subst (λ cs. Alone cs (one i m l early stage)) (sym (append-nil came))
      (record {
        index = i;
        size = m;
        link = l;
        early = early;
        stage = stage;
        same = refl;
        placed = h;
      })
step-one i m offers came l early stage q h = absurd q
step-one i m answers came l early stage q h = absurd q
step-one i m creates came l early stage q h = absurd q
step-one i m (refuses t) came l early stage q h = absurd q

run-Alone :
    (es : List Event) (came : List ℕ) {n : Negotiation}
    → All IsPlain es
    → Alone came n
    → Alone (came ++ given es) (run es n)
unfolding run
run-Alone [] came {n} q h = subst (λ cs. Alone cs n) (sym (append-nil came)) h
run-Alone (e ∷ es) came {n} q h =
    subst (λ cs. Alone cs (run es (step e n))) (append_assoc came (given_by e) (given es))
      (run-Alone es (came ++ given_by e) q.1 (
        subst (λ m. Alone (came ++ given_by e) (step e m)) (sym h.same)
          (step-one h.index h.size e came h.link h.early h.stage q.0 h.placed)))

-- The candidates before the offer wait for a connection.
run-early :
    (i : ℕ) (cs : List (Option ℕ)) (early : List ℕ)
    → run (map candidates cs) (record (new_negotiation i) { early = early })
      ≡ record (new_negotiation i) { early = early ++ given (map candidates cs) }
unfolding run step add_candidate
run-early i [] early = ap (λ e. record (new_negotiation i) { early = e }) (sym (append-nil early))
run-early i (none ∷ cs) early = run-early i cs early
run-early i (some c ∷ cs) early =
    run-early i cs (early ++ c ∷ [])
    ∙ ap (λ e. record (new_negotiation i) { early = e })
        (append_assoc early (c ∷ []) (given (map candidates cs)))

offer-Alone :
    (i : ℕ) (early : List ℕ)
    → Alone early (step offers (record (new_negotiation i) { early = early }))
unfolding step handle_offer new_link
offer-Alone i early = record {
  index = i;
  size = max 0 (i + 1);
  link = new_link;
  early = early;
  stage = describing true;
  same = refl;
  placed = (refl, refl, refl, λ a. omega arith);
}

run-append : (es fs : List Event) (n : Negotiation) → run (es ++ fs) n ≡ run fs (run es n)
unfolding run
run-append [] fs n = refl
run-append (e ∷ es) fs n = run-append es fs (step e n)

-- An offer for a new index, whichever it is, with any candidates before it, and candidates and ends of awaits behind
-- it in any order: at each moment every candidate that has come is in exactly one place, and none has
-- been added before the remote description is set; once the handler has returned, all have been added
-- to the connection, once each.
pub run-offer :
    (i : ℕ) (before : List (Option ℕ)) (after : List Event)
    → All IsPlain after
    → Alone
        (given (map candidates before) ++ given after)
        (run (map candidates before ++ (offers ∷ after)) (new_negotiation i))
unfolding run
run-offer i before after q =
    let came = given (map candidates before) in
    subst (Alone (came ++ given after))
      (sym (
        run-append (map candidates before) (offers ∷ after) (new_negotiation i)
        ∙ ap (λ n. run after (step offers n)) (run-early i before [])))
      (run-Alone after came q (offer-Alone i came))
