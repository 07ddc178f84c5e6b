-- ===== src/Worker/Streams.antt =====
-- What the operations of a stream do, and the invariant that an entry's controller is a stream which
-- that entry's own request opened.
use p2ptransfer.Base.{
  ℕ, zero, suc, ◌≡◌, refl, ◌∙◌, List, [], ◌∷◌, ◌++◌, none, some, arith, length, get_elem?, lookup,
  insert, remove, lookup-insert, lookup-remove, Distinct, Distinct-insert, Distinct-remove, ◌==◌,
  if◌then◌else◌, append_assoc, append-nil, inl, inr, Bool-cases, ℕ_discrete,
}
use p2ptransfer.Wire.{Bytes}
use p2ptransfer.Worker.{
  Status, readable, closed, Stream, Entry, Worker, enqueue, discard, enqueue_all, finish, on_stream,
  start_stream,
}

pub get_elem?-on_stream :
    (c j : ℕ) (f : Stream → Stream) (l : List Stream)
    → get_elem? (on_stream c f l) j ≡ (
        if c == j
        then elim (get_elem? l j) [ none ↦ none | some s ↦ some (f s) ]
        else get_elem? l j)
unfolding on_stream
get_elem?-on_stream c j f [] = ground arith
get_elem?-on_stream zero zero f (s ∷ ss) = refl
get_elem?-on_stream zero (suc j) f (s ∷ ss) = ground arith
get_elem?-on_stream (suc c) zero f (s ∷ ss) = ground arith
get_elem?-on_stream (suc c) (suc j) f (s ∷ ss) = ground (arith, get_elem?-on_stream c j f ss)

pub get_elem?-snoc_last :
    (l : List Stream) (s : Stream) → get_elem? (l ++ s ∷ []) (length l) ≡ some s
get_elem?-snoc_last [] s = refl
get_elem?-snoc_last (x ∷ l) s = get_elem?-snoc_last l s

pub get_elem?-snoc :
    (l : List Stream) (s : Stream) (j : ℕ) {t : Stream}
    → get_elem? l j ≡ some t
    → get_elem? (l ++ s ∷ []) j ≡ some t
get_elem?-snoc [] s j h = cc
get_elem?-snoc (x ∷ l) s zero h = h
get_elem?-snoc (x ∷ l) s (suc j) h = get_elem?-snoc l s j h

pub enqueue_all-queue :
    (bs : List Bytes) (s : Stream)
    → s.status ≡ readable
    → enqueue_all bs s ≡ record s { queue = s.queue ++ bs }
unfolding enqueue_all enqueue
enqueue_all-queue [] s h = ground (arith, append-nil s.queue)
enqueue_all-queue (b ∷ bs) s h = ground (
  arith,
  enqueue_all-queue bs (record s { queue = s.queue ++ b ∷ [] }) h,
  append_assoc s.queue (b ∷ []) bs,
)

-- An entry that has a controller has one which a request for its own id opened; ids stand in the
-- table once.
pub record IsSound (w : Worker) : Type 0 where
  pub owned :
      (id : ℕ) (e : Entry) (c : ℕ)
      → lookup id w.streams ≡ some e
      → e.controller ≡ some c
      → (s : Stream) × (get_elem? w.opened c ≡ some s) × (s.owner ≡ id)
  pub distinct : Distinct w.streams

pub owner-enqueue : (b : Bytes) (s : Stream) → (enqueue b s).owner ≡ s.owner
unfolding enqueue
owner-enqueue b s = ground arith

pub owner-discard : (s : Stream) → (discard s).owner ≡ s.owner
unfolding discard
owner-discard s = refl

pub owner-finish : (t : Status) (s : Stream) → (finish t s).owner ≡ s.owner
unfolding finish
owner-finish t s = ground arith

owner-enqueue_all : (bs : List Bytes) (s : Stream) → (enqueue_all bs s).owner ≡ s.owner
unfolding enqueue_all
owner-enqueue_all [] s = refl
owner-enqueue_all (b ∷ bs) s = owner-enqueue_all bs (enqueue b s) ∙ owner-enqueue b s

pub owner-start_stream : (id : ℕ) (e : Entry) → (start_stream id e).owner ≡ id
unfolding start_stream
owner-start_stream id e = ground (
  arith,
  owner-enqueue_all e.pending (record { owner = id; queue = []; status = readable }),
  owner-finish closed
      (enqueue_all e.pending (record { owner = id; queue = []; status = readable })),
)

on_stream-owned :
    (c d : ℕ) (f : Stream → Stream) (l : List Stream) (id : ℕ)
    → ((s : Stream) → (f s).owner ≡ s.owner)
    → (s : Stream) × (get_elem? l d ≡ some s) × (s.owner ≡ id)
    → (s : Stream) × (get_elem? (on_stream c f l) d ≡ some s) × (s.owner ≡ id)
on_stream-owned c d f l id keep (s, at, own) = elim (Bool-cases (c == d)) [
  | inl same ↦ (f s, ground (arith, get_elem?-on_stream c d f l), keep s ∙ own)
  | inr differs ↦ (s, ground (arith, get_elem?-on_stream c d f l), own)
]

-- The changes that the handlers are made of keep the worker sound.
module _ {w : Worker} (v : IsSound w) where
  pub insert_waiting :
      (id : ℕ) (e : Entry)
      → e.controller ≡ none
      → IsSound (record w { streams = insert id e w.streams })
  insert_waiting id e none_yet = record {
    owned = λ j e' c at ctl. elim (ℕ_discrete id j) [
      | yes same ↦ absurd (ground (arith, lookup-insert j id e w.streams))
      | no differs ↦ v.owned j e' c (ground (arith, lookup-insert j id e w.streams)) ctl
    ];
    distinct = Distinct-insert id e w.streams v.distinct;
  }

  pub insert_live :
      (id c : ℕ) (e : Entry) (s : Stream)
      → e.controller ≡ some c
      → get_elem? w.opened c ≡ some s
      → s.owner ≡ id
      → IsSound (record w { streams = insert id e w.streams })
  insert_live id c e s ctl at own = record {
    owned = λ j e' d at' ctl'. elim (ℕ_discrete id j) [
      | yes same ↦ (s, ground (arith, lookup-insert j id e w.streams), own ∙ same)
      | no differs ↦ v.owned j e' d (ground (arith, lookup-insert j id e w.streams)) ctl'
    ];
    distinct = Distinct-insert id e w.streams v.distinct;
  }

  pub remove_entry : (id : ℕ) → IsSound (record w { streams = remove id w.streams })
  remove_entry id = record {
    owned =
        λ j e c at ctl. v.owned j e c (ground (arith, lookup-remove j id w.streams v.distinct)) ctl;
    distinct = Distinct-remove id w.streams v.distinct;
  }

  pub change_stream :
      (c : ℕ) (f : Stream → Stream)
      → ((s : Stream) → (f s).owner ≡ s.owner)
      → IsSound (record w { opened = on_stream c f w.opened })
  change_stream c f keep = record {
    owned = λ j e d at ctl. on_stream-owned c d f w.opened j keep (v.owned j e d at ctl);
    distinct = v.distinct;
  }

  pub open_stream : (s : Stream) → IsSound (record w { opened = w.opened ++ s ∷ [] })
  open_stream s = record {
    owned = λ j e d at ctl.
        let (t, there, own) = v.owned j e d at ctl in (t, get_elem?-snoc w.opened s d there, own);
    distinct = v.distinct;
  }

pub enqueue-readable :
    (b : Bytes) (s : Stream)
    → s.status ≡ readable
    → enqueue b s ≡ record s { queue = s.queue ++ b ∷ [] }
unfolding enqueue
enqueue-readable b s h = ground arith

pub finish-readable :
    (t : Status) (s : Stream) → s.status ≡ readable → finish t s ≡ record s { status = t }
unfolding finish
finish-readable t s h = ground arith

pub on_stream-at :
    (c : ℕ) (f : Stream → Stream) (l : List Stream) {s : Stream}
    → get_elem? l c ≡ some s
    → get_elem? (on_stream c f l) c ≡ some (f s)
on_stream-at c f l at = ground (arith, get_elem?-on_stream c c f l)
