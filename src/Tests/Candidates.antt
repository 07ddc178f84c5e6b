-- ===== src/Tests/Candidates.antt =====
-- ICE candidates before, during and after an offer, and the other handlers.
use p2ptransfer.Base.{
  ℕ, ◌≡◌, refl, List, [], ◌∷◌, ◌++◌, Option, none, some, map, true, false, arith, All, drop,
}
use p2ptransfer.Ice.{
  Task, Event, candidates, offers, answers, creates, resumes, refuses, past, new_negotiation, run,
}
use p2ptransfer.Ice.Again.{untouched, run-first}
use p2ptransfer.Ice.Once.{Alone, given, run-offer}

abbrev before : List (Option ℕ)
before = some 1 ∷ none ∷ some 2 ∷ []

-- 3 comes before the description is set, 4 while the early ones are added.
abbrev after : List Event
after =
    candidates (some 3)
    ∷ resumes 0
    ∷ resumes 0
    ∷ candidates (some 4)
    ∷ resumes 0
    ∷ resumes 0
    ∷ resumes 0
    ∷ resumes 0
    ∷ []

run-offer_example :
    Alone
      (given (map candidates before) ++ given after)
      (run (map candidates before ++ (offers ∷ after)) (new_negotiation 7))
run-offer_example = run-offer 7 before after (tt, (tt, (tt, (tt, (tt, (tt, (tt, (tt, tt))))))))

all_added : run (map candidates before ++ (offers ∷ after)) (new_negotiation 7) ≡ record {
  index = 7;
  size = 8;
  links = record { described = true; pending = []; added = 1 ∷ 4 ∷ 2 ∷ 3 ∷ [] } ∷ [];
  current = some 0;
  early = [];
  tasks = record { link = 0; stage = past } ∷ [];
}
unfolding run
all_added = refl

-- The sender's side: candidates wait for the answer; a second offer's connection gets nothing.
answered :
    (run
      (creates ∷ candidates (some 5) ∷ answers ∷ resumes 0 ∷ resumes 0 ∷ resumes 0 ∷ creates ∷ [])
      (new_negotiation 2)).links
    ≡ record { described = true; pending = []; added = 5 ∷ [] }
      ∷ record { described = false; pending = []; added = [] }
      ∷ []
unfolding run
answered = refl

-- A description that is refused leaves the candidates waiting.
refused :
    (run
      (creates ∷ candidates (some 5) ∷ answers ∷ refuses 0 ∷ resumes 0 ∷ [])
      (new_negotiation 2)).links
    ≡ record { described = false; pending = 5 ∷ []; added = [] } ∷ []
unfolding run
refused = refl

-- A receiver joins again: its answer and its candidate go to the connection of the first offer.
abbrev rejoining : List Event
rejoining = answers ∷ resumes 0 ∷ creates ∷ candidates (some 6) ∷ answers ∷ resumes 1 ∷ []

run-first_example :
    ((run (creates ∷ rejoining) (new_negotiation 2)).current ≡ some 0)
    × All (λ (t : Task). t.link ≡ 0) (run (creates ∷ rejoining) (new_negotiation 2)).tasks
    × (drop 1 (run (creates ∷ rejoining) (new_negotiation 2)).links ≡ untouched rejoining)
run-first_example = run-first 2 rejoining (omega arith) (tt, (tt, (tt, (tt, (tt, (tt, tt))))))
