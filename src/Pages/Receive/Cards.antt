-- ===== src/Pages/Receive/Cards.antt =====
-- Where the receive page stands, and that the countdown and the button keep to it.
use p2ptransfer.Base.{
  ℕ, ◌-◌, ◌≡◌, ◌⊎◌, inl, inr, refl, ◌∙◌, arith, [], none, some, Bool, true, false, leb,
  if◌then◌else◌,
}
use p2ptransfer.Signal.{Client, pending, resolved, rejected, new_client, wait_open}
use p2ptransfer.Pages.{Payload}
use p2ptransfer.Pages.Receive.{
  Page, Shown, Handler, start_receive, start_unless_started, tick, click,
}

pub data Card : Type 0 where
  interstitial connecting transfer complete : Card

-- One card is shown and the others are hidden.
abbrev pub only : Card → Shown
only interstitial = record {
  interstitial = true;
  connecting = false;
  transfer = false;
  complete = false;
}
only connecting = record {
  interstitial = false;
  connecting = true;
  transfer = false;
  complete = false;
}
only transfer = record {
  interstitial = false;
  connecting = false;
  transfer = true;
  complete = false;
}
only complete = record {
  interstitial = false;
  connecting = false;
  transfer = false;
  complete = true;
}

-- What the page shows behind the promise of `waitOpen`.
abbrev pub Showing : Page → Type 0
Showing p =
    ((p.shown ≡ only connecting) × (p.first_offer_received ≡ false))
    ⊎ (((p.shown ≡ only transfer) ⊎ (p.shown ≡ only complete)) × (p.first_offer_received ≡ true))

-- Where the page stands: before the start; with a promise that is pending, refused, or kept.
pub data Stands (p : Page) : Type 0 where
  before :
      p.client ≡ none
      → p.receive_started ≡ false
      → p.engine ≡ false
      → p.shown ≡ only interstitial
      → Stands p
  waits :
      (c : Client Handler Payload)
      → p.client ≡ some c
      → c.promise ≡ pending
      → c.handlers ≡ []
      → p.receive_started ≡ true
      → p.engine ≡ false
      → p.shown ≡ only connecting
      → Stands p
  failed :
      (c : Client Handler Payload)
      → p.client ≡ some c
      → c.promise ≡ rejected
      → c.handlers ≡ []
      → p.receive_started ≡ true
      → p.engine ≡ false
      → p.shown ≡ only connecting
      → Stands p
  running :
      (c : Client Handler Payload)
      → p.client ≡ some c
      → c.promise ≡ resolved
      → p.receive_started ≡ true
      → p.engine ≡ true
      → Showing p
      → Stands p

-- A change of the fields that do not matter here.
pub record SameCore (p p' : Page) : Type 0 where
  pub client : p'.client ≡ p.client
  pub started : p'.receive_started ≡ p.receive_started
  pub engine : p'.engine ≡ p.engine
  pub first : p'.first_offer_received ≡ p.first_offer_received
  pub shown : p'.shown ≡ p.shown

pub SameCore-Stands : {p p' : Page} → SameCore p p' → Stands p → Stands p'
SameCore-Stands k (before c s e sh) =
    before (k.client ∙ c) (k.started ∙ s) (k.engine ∙ e) (k.shown ∙ sh)
SameCore-Stands k (waits c at q hs s e sh) =
    waits c (k.client ∙ at) q hs (k.started ∙ s) (k.engine ∙ e) (k.shown ∙ sh)
SameCore-Stands k (failed c at q hs s e sh) =
    failed c (k.client ∙ at) q hs (k.started ∙ s) (k.engine ∙ e) (k.shown ∙ sh)
SameCore-Stands k (running c at q s e (inl (sh, f))) =
    running c (k.client ∙ at) q (k.started ∙ s) (k.engine ∙ e) (inl (k.shown ∙ sh, k.first ∙ f))
SameCore-Stands k (running c at q s e (inr (inl sh, f))) =
    running c (k.client ∙ at) q (k.started ∙ s) (k.engine ∙ e)
      (inr (inl (k.shown ∙ sh), k.first ∙ f))
SameCore-Stands k (running c at q s e (inr (inr sh, f))) =
    running c (k.client ∙ at) q (k.started ∙ s) (k.engine ∙ e)
      (inr (inr (k.shown ∙ sh), k.first ∙ f))

if-Stands : (b : Bool) {p p' : Page} → Stands p → Stands p' → Stands (if b then p else p')
if-Stands true h h' = h
if-Stands false h h' = h'

start_receive-Stands :
    (p : Page) → p.engine ≡ false → p.shown ≡ only interstitial → Stands (start_receive p)
unfolding start_receive wait_open
start_receive-Stands p e sh =
    waits (wait_open new_client) refl refl refl refl e (ground (arith, sh))

start_unless_started-Stands : (p : Page) → Stands p → Stands (start_unless_started p)
unfolding start_unless_started
start_unless_started-Stands p h = by_start p.receive_started refl h
  where
    by_start :
        (b : Bool) → p.receive_started ≡ b → Stands p → Stands (if b then p else start_receive p)
    by_start true at h = h
    by_start false at (before c s e sh) = start_receive-Stands p e sh
    by_start false at (waits c at' q hs s e sh) = absurd (ground (arith, at, s))
    by_start false at (failed c at' q hs s e sh) = absurd (ground (arith, at, s))
    by_start false at (running c at' q s e sh) = absurd (ground (arith, at, s))

-- The fields of the countdown.
recounted : ℕ → ℕ → Bool → Bool → Page → Page
recounted n text timer button p = record p {
  countdown = n;
  countdown_text = text;
  timer = timer;
  button = button;
}

recounted-Stands :
    (n text : ℕ) (timer button : Bool) (p : Page)
    → Stands p
    → Stands (recounted n text timer button p)
unfolding recounted
recounted-Stands n text timer button p h =
    SameCore-Stands
      (record { client = refl; started = refl; engine = refl; first = refl; shown = refl }) h

pub tick-Stands : (p : Page) → Stands p → Stands (tick p)
unfolding tick recounted
tick-Stands p h =
    let n = p.countdown - 1 in
    if-Stands p.timer
      (if-Stands (leb n 0)
        (start_unless_started-Stands (recounted n 0 false true p)
          (recounted-Stands n 0 false true p h))
        (recounted-Stands n n p.timer p.button p h))
      h

pub click-Stands : (p : Page) → Stands p → Stands (click p)
unfolding click recounted
click-Stands p h =
    start_unless_started-Stands (recounted p.countdown p.countdown_text false p.button p)
      (recounted-Stands p.countdown p.countdown_text false p.button p h)
