-- ===== src/Ice/Handlers.antt =====
-- What the handlers and their awaits do to an index whose first connection stands at its place.
use p2ptransfer.Base.{
  ℕ, zero, suc, ◌<◌, ◌≡◌, refl, sym, ap, subst, List, [], ◌∷◌, ◌++◌, Option, none, some, arith, All,
  All-append, get_elem?, set, Option-cases, inl, inr, true, false,
}
use p2ptransfer.Ice.{
  Link, Stage, describing, adding_early, adding_pending, past, Task, Negotiation, add_candidate,
  handle_answer, resume_negotiation, refuse, on_link, at_stage, go_on, refused_at, take_candidate,
}

-- The first connection stands at the place of the index, every handler is about it, and the later
-- ones are `later`.
pub record Keeps (later : List Link) (n : Negotiation) : Type 0 where
  pub first : Link
  pub links : n.links ≡ first ∷ later
  pub current : n.current ≡ some 0
  pub few : n.index < 4
  pub behind : n.index < n.size
  pub tasks : All (λ (t : Task). t.link ≡ 0) n.tasks

on_link-first :
    (f : Link → Link) (n : Negotiation) (l : Link) (ls : List Link)
    → n.links ≡ l ∷ ls
    → on_link 0 f n ≡ record n { links = f l ∷ ls }
unfolding on_link
on_link-first f n l ls h =
    ap
      (λ (xs : List Link). elim (get_elem? xs 0) as (λ o. Negotiation) [
        | none ↦ n
        | some x ↦ record n { links = set xs 0 (f x) }
      ])
      h

on_link-Keeps :
    (f : Link → Link) {later : List Link} {n : Negotiation}
    → Keeps later n
    → Keeps later (on_link 0 f n)
on_link-Keeps f {later} {n} v =
    subst (Keeps later) (sym (on_link-first f n v.first later v.links)) (record {
      first = f v.first;
      links = refl;
      current = v.current;
      few = v.few;
      behind = v.behind;
      tasks = v.tasks;
    })

All-set_task :
    (t : ℕ) (ts : List Task) (task : Task)
    → task.link ≡ 0
    → All (λ (x : Task). x.link ≡ 0) ts
    → All (λ (x : Task). x.link ≡ 0) (set ts t task)
All-set_task t [] task e h = tt
All-set_task zero (x ∷ ts) task e h = (e, h.1)
All-set_task (suc t) (x ∷ ts) task e h = (h.0, All-set_task t ts task e h.1)

task_link :
    (t : ℕ) (ts : List Task) {task : Task}
    → get_elem? ts t ≡ some task
    → All (λ (x : Task). x.link ≡ 0) ts
    → task.link ≡ 0
task_link t [] at h = ground (arith, at)
task_link zero (x ∷ ts) at h = ground (arith, at, h.0)
task_link (suc t) (x ∷ ts) at h = task_link t ts at h.1

at_stage-Keeps :
    (t : ℕ) (stage : Stage) {later : List Link} {n : Negotiation}
    → Keeps later n
    → Keeps later (at_stage t 0 stage n)
unfolding at_stage
at_stage-Keeps t stage {n = n} v = record {
  first = v.first;
  links = v.links;
  current = v.current;
  few = v.few;
  behind = v.behind;
  tasks = All-set_task t n.tasks (record { link = 0; stage = stage }) refl v.tasks;
}

early-Keeps :
    {later : List Link} {n : Negotiation} → Keeps later n → Keeps later (record n { early = [] })
early-Keeps v = record {
  first = v.first;
  links = v.links;
  current = v.current;
  few = v.few;
  behind = v.behind;
  tasks = v.tasks;
}

go_on-Keeps :
    (t : ℕ) (stage : Stage) {later : List Link} {n : Negotiation}
    → Keeps later n
    → Keeps later (go_on t 0 stage n)
unfolding go_on
go_on-Keeps t (describing true) v = at_stage-Keeps t _ (on_link-Keeps _ v)
go_on-Keeps t (describing false) v = at_stage-Keeps t _ (on_link-Keeps _ v)
go_on-Keeps t (adding_early []) v = at_stage-Keeps t _ (early-Keeps v)
go_on-Keeps t (adding_early (c ∷ cs)) v = at_stage-Keeps t _ (on_link-Keeps _ v)
go_on-Keeps t (adding_pending []) v = at_stage-Keeps t _ (on_link-Keeps _ v)
go_on-Keeps t (adding_pending (c ∷ cs)) v = at_stage-Keeps t _ (on_link-Keeps _ v)
go_on-Keeps t past v = v

refused_at-Keeps :
    (t : ℕ) (stage : Stage) {later : List Link} {n : Negotiation}
    → Keeps later n
    → Keeps later (refused_at t 0 stage n)
unfolding refused_at
refused_at-Keeps t (describing b) v = at_stage-Keeps t past v
refused_at-Keeps t (adding_early cs) v = v
refused_at-Keeps t (adding_pending cs) v = v
refused_at-Keeps t past v = v

pub resume_negotiation-Keeps :
    (t : ℕ) {later : List Link} {n : Negotiation}
    → Keeps later n
    → Keeps later (resume_negotiation t n)
unfolding resume_negotiation
resume_negotiation-Keeps t {later} {n} v = elim (Option-cases (get_elem? n.tasks t)) [
  | inl gone ↦ rw (gone, resume_negotiation) v
  | inr (task, at) ↦
      rw (at, resume_negotiation)
        (subst (λ k. Keeps later (go_on t k task.stage n)) (sym (task_link t n.tasks at v.tasks))
          (go_on-Keeps t task.stage v))
]

pub refuse-Keeps :
    (t : ℕ) {later : List Link} {n : Negotiation} → Keeps later n → Keeps later (refuse t n)
unfolding refuse
refuse-Keeps t {later} {n} v = elim (Option-cases (get_elem? n.tasks t)) [
  | inl gone ↦ rw (gone, refuse) v
  | inr (task, at) ↦
      rw (at, refuse)
        (subst (λ k. Keeps later (refused_at t k task.stage n))
          (sym (task_link t n.tasks at v.tasks)) (refused_at-Keeps t task.stage v))
]

pub add_candidate-Keeps :
    (c : Option ℕ) {later : List Link} {n : Negotiation}
    → Keeps later n
    → Keeps later (add_candidate c n)
unfolding add_candidate
add_candidate-Keeps none v = v
add_candidate-Keeps (some c) {later} {n} v =
    subst
      (λ (o : Option ℕ). Keeps later (elim o as (λ x. Negotiation) [
        | none ↦ record n { early = n.early ++ c ∷ [] }
        | some j ↦ on_link j (take_candidate c) n
      ]))
      (sym v.current) (on_link-Keeps (take_candidate c) v)

pub handle_answer-Keeps :
    {later : List Link} {n : Negotiation} → Keeps later n → Keeps later (handle_answer n)
unfolding handle_answer
handle_answer-Keeps {later} {n} v =
    subst
      (λ (o : Option ℕ). Keeps later (elim o as (λ x. Negotiation) [
        | none ↦ n
        | some k ↦ record n {
          tasks = n.tasks ++ record { link = k; stage = describing false } ∷ [];
        }
      ]))
      (sym v.current)
      (record {
        first = v.first;
        links = v.links;
        current = v.current;
        few = v.few;
        behind = v.behind;
        tasks = All-append (λ (t : Task). t.link ≡ 0) n.tasks _ v.tasks (refl, tt);
      })
