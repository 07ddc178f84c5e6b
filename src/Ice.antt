-- ===== src/Ice.antt =====
-- ICE candidates on one connection index of `TransferEngine` in web/static/js/transfer.js:
-- `addIceCandidate`, `handleOffer`, `handleAnswer` and what `createOffer` pushes onto `connections`.
-- The handlers await the peer connection; what goes on behind an `await` is an event of its own. The
-- descriptions themselves, and that the peer connection takes a candidate, are left out: `added` has
-- the arguments of the calls of `pc.addIceCandidate`, whose exceptions the source ignores. A
-- candidate is a number.
pub mod Once
pub mod Handlers
pub mod Again
use p2ptransfer.Base.{
  ℕ, ◌+◌, max, ◌==◌, List, [], ◌∷◌, ◌++◌, Option, none, some, Bool, true, false, length, get_elem?,
  set, if◌then◌else◌,
}

-- What `_createPC` makes: `remoteDescriptionSet`, `pendingCandidates`, and the calls on `pc`.
pub record Link : Type 0 where
  pub described : Bool
  pub pending : List ℕ
  pub added : List ℕ

pub new_link : Link
new_link = record { described = false; pending = []; added = [] }

-- Where a call of `handleOffer` (`true`) or `handleAnswer` (`false`) stands: at the await of
-- `setRemoteDescription`; in its loops, with what they have yet to add; behind them, or left by the
-- exception of a description that was refused.
pub data Stage : Type 0 where
  describing : Bool → Stage
  adding_early : List ℕ → Stage
  adding_pending : List ℕ → Stage
  past : Stage

pub record Task : Type 0 where
  pub link : ℕ
  pub stage : Stage

-- What a handler finds under one index. `links` has the connections that carry the index or have
-- stood at its place in the array `connections`, `size` is the length of that array, `current` says
-- which of `links` stands at the place, `early` is `_globalPendingIce[index]` (a missing one is empty),
-- and `tasks` has the calls of the handlers.
pub record Negotiation : Type 0 where
  pub index : ℕ
  pub size : ℕ
  pub links : List Link
  pub current : Option ℕ
  pub early : List ℕ
  pub tasks : List Task

-- A new engine, at an index.
abbrev pub new_negotiation : ℕ → Negotiation
new_negotiation index = record {
  index = index;
  size = 0;
  links = [];
  current = none;
  early = [];
  tasks = [];
}

on_link : ℕ → (Link → Link) → Negotiation → Negotiation
on_link k f n = elim (get_elem? n.links k) [
  | none ↦ n
  | some l ↦ record n { links = set n.links k (f l) }
]

-- `pc.addIceCandidate` at once, or the candidate waits for the description.
take_candidate : ℕ → Link → Link
take_candidate c l =
    if l.described
    then record l { added = l.added ++ c ∷ [] }
    else record l { pending = l.pending ++ c ∷ [] }

-- `addIceCandidate`
unfoldable pub add_candidate : Option ℕ → Negotiation → Negotiation
unfolding on_link take_candidate
add_candidate none n = n
add_candidate (some c) n = elim n.current [
  | none ↦ record n { early = n.early ++ c ∷ [] }
  | some k ↦ on_link k (take_candidate c) n
]

-- `handleOffer` up to its first await: a new connection takes the index.
unfoldable pub handle_offer : Negotiation → Negotiation
unfolding new_link
handle_offer n = record n {
  size = max n.size (n.index + 1);
  links = n.links ++ new_link ∷ [];
  current = some (length n.links);
  tasks = n.tasks ++ record { link = length n.links; stage = describing true } ∷ [];
}

-- `handleAnswer` up to its first await.
unfoldable pub handle_answer : Negotiation → Negotiation
handle_answer n = elim n.current [
  | none ↦ n
  | some k ↦ record n { tasks = n.tasks ++ record { link = k; stage = describing false } ∷ [] }
]

-- The body of the loop of `createOffer`: the connection that `_createPC(i)` makes carries the index
-- `i` and is pushed onto `connections`. It takes the place of the index if the array ends there.
unfoldable pub push : ℕ → Negotiation → Negotiation
unfolding new_link
push i n =
    let pushed = record n { size = n.size + 1 } in
    let carrying = record pushed { links = n.links ++ new_link ∷ [] } in
    if n.size == n.index
    then record carrying { current = some (length n.links) }
    else if i == n.index
    then carrying
    else pushed

-- `createOffer` pushes `NUM_P2P` connections.
unfoldable pub create_links : Negotiation → Negotiation
unfolding push
create_links n = push 3 (push 2 (push 1 (push 0 n)))

at_stage : ℕ → ℕ → Stage → Negotiation → Negotiation
at_stage t k stage n = record n { tasks = set n.tasks t (record { link = k; stage = stage }) }

pending_of : ℕ → Negotiation → List ℕ
pending_of k n = elim (get_elem? n.links k) [ none ↦ [] | some l ↦ l.pending ]

-- A handler goes on behind an await: the description is set; the next candidate of a loop is added;
-- a loop is over.
go_on : ℕ → ℕ → Stage → Negotiation → Negotiation
unfolding on_link at_stage pending_of
go_on t k (describing true) n =
    at_stage t k (adding_early n.early) (on_link k (λ l. record l { described = true }) n)
go_on t k (describing false) n =
    at_stage t k (adding_pending (pending_of k n))
      (on_link k (λ l. record l { described = true }) n)
go_on t k (adding_early []) n =
    at_stage t k (adding_pending (pending_of k n)) (record n { early = [] })
go_on t k (adding_early (c ∷ cs)) n =
    at_stage t k (adding_early cs) (on_link k (λ l. record l { added = l.added ++ c ∷ [] }) n)
go_on t k (adding_pending []) n = at_stage t k past (on_link k (λ l. record l { pending = [] }) n)
go_on t k (adding_pending (c ∷ cs)) n =
    at_stage t k (adding_pending cs) (on_link k (λ l. record l { added = l.added ++ c ∷ [] }) n)
go_on t k past n = n

unfoldable pub resume_negotiation : ℕ → Negotiation → Negotiation
unfolding go_on
resume_negotiation t n = elim (get_elem? n.tasks t) [
  | none ↦ n
  | some task ↦ go_on t task.link task.stage n
]

-- `setRemoteDescription` is refused.
refused_at : ℕ → ℕ → Stage → Negotiation → Negotiation
unfolding at_stage
refused_at t k (describing b) n = at_stage t k past n
refused_at t k (adding_early cs) n = n
refused_at t k (adding_pending cs) n = n
refused_at t k past n = n

unfoldable pub refuse : ℕ → Negotiation → Negotiation
unfolding refused_at
refuse t n = elim (get_elem? n.tasks t) [
  | none ↦ n
  | some task ↦ refused_at t task.link task.stage n
]

pub data Event : Type 0 where
  candidates : Option ℕ → Event
  offers answers creates : Event
  resumes refuses : ℕ → Event

unfoldable pub step : Event → Negotiation → Negotiation
unfolding add_candidate handle_offer handle_answer create_links resume_negotiation refuse
step (candidates c) n = add_candidate c n
step offers n = handle_offer n
step answers n = handle_answer n
step creates n = create_links n
step (resumes t) n = resume_negotiation t n
step (refuses t) n = refuse t n

unfoldable pub run : List Event → Negotiation → Negotiation
unfolding step
run [] n = n
run (e ∷ es) n = run es (step e n)
