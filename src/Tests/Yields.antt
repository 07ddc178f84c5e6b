-- ===== src/Tests/Yields.antt =====
-- A pump that yields three times, and two that share a yielder.
use p2ptransfer.Base.{◌≡◌, refl, List, [], ◌∷◌}
use p2ptransfer.Yielder.{YieldEvent, yields, arrivals, destroys, create_yielder, yield_run}

abbrev in_turn : List YieldEvent
in_turn = yields ∷ arrivals ∷ arrivals ∷ yields ∷ arrivals ∷ yields ∷ []

run-in_turn : (yield_run in_turn create_yielder).resumed ≡ 0 ∷ 1 ∷ []
unfolding yield_run
run-in_turn = refl

-- Two yields at once: the first is never resumed.
overlapping :
    (yield_run (yields ∷ yields ∷ arrivals ∷ arrivals ∷ destroys ∷ []) create_yielder).resumed
    ≡ 1 ∷ 1 ∷ []
unfolding yield_run
overlapping = refl
