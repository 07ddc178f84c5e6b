-- ===== src/Receiver/Order.antt =====
-- What a receiver has come to depends on which chunks have arrived, not on their order: the view of a
-- transfer that forgets order and repetitions.
use mathlib.Core.Quot
use mathlib.Core.Quot.{Quot}
use native.Mathlib.Nat.{ℕ_set}
use p2ptransfer.Base.{
  ℕ, zero, suc, ◌+◌, ◌<◌, ◌≤◌, ◌≡◌, sym, ap, subst, List, true, false, arith, if◌then◌else◌, dec_lt,
}
use p2ptransfer.Wire.{Bytes}
use p2ptransfer.Worker.{Message}
use p2ptransfer.Receiver.{Receiver, handle_all}
use p2ptransfer.Receiver.Delivery.{AllCarry, arrives}
use p2ptransfer.Receiver.Transfer.{IsReady, HasReached, handle_all-HasReached}

-- The two lists hold the same indices, in any order and any number of times.
abbrev pub SameArrivals : List ℕ → List ℕ → Type 0
SameArrivals is js = (k : ℕ) → arrives k is ≡ arrives k js

-- The set of the chunks that have arrived.
abbrev pub Arrived : Type 0
Arrived = Quot SameArrivals

abbrev pub arrived : List ℕ → Arrived
arrived is = Quot.mk is

-- The first of the `n` chunks from `j` on that has not arrived, or the one behind them.
abbrev pub first_missing : ℕ → ℕ → List ℕ → ℕ
first_missing zero j is = j
first_missing (suc n) j is =
    let rest = first_missing n (suc j) is in if arrives j is then rest else j

pub first_missing_cong :
    (n j : ℕ) (is js : List ℕ) → SameArrivals is js → first_missing n j is ≡ first_missing n j js
first_missing_cong zero j is js same = ground arith
first_missing_cong (suc n) j is js same =
    ground (arith, first_missing_cong n (suc j) is js same, same j)

-- How far a receiver should be with a transfer of `total` chunks.
unfoldable pub reach : ℕ → Arrived → ℕ
reach total =
    Quot.lift ℕ_set (first_missing total 0) (λ is js same. first_missing_cong total 0 is js same)

first_missing-is :
    (n j due : ℕ) (is : List ℕ)
    → j ≤ due
    → due ≤ j + n
    → ((k : ℕ) → k < due → arrives k is ≡ true)
    → arrives due is ≡ false
    → first_missing n j is ≡ due
first_missing-is zero j due is le ge all none = omega arith
first_missing-is (suc n) j due is le ge all none = elim (dec_lt j due) [
  | yes lt ↦ ground (
    arith,
    all j lt,
    first_missing-is n (suc j) due is (omega (arith, lt)) (omega arith) all none,
  )
  | no not_lt ↦
      let here : j ≡ due = omega (arith, le, not_lt) in
      ground (arith, here, ap (λ k. arrives k is) here, none)
]

module _ (content : ℕ → Bytes) (total : ℕ) where
  -- The receiver is where the set of the chunks that have arrived says.
  handle_all-reach :
      (before : List Message) (is : List ℕ) (ms : List Bytes) (r : Receiver)
      → AllCarry content before total is ms
      → IsReady before total r
      → HasReached content before total is (reach total (arrived is)) (handle_all ms r)
  unfolding reach
  handle_all-reach before is ms r cs v =
      let (due, h) = handle_all-HasReached content before total is ms r cs v in
      subst (λ k. HasReached content before total is k (handle_all ms r))
        (sym (
          first_missing-is total 0 due is (omega arith) (omega (arith, h.in_range)) h.arrived
            h.missing))
        h

  -- Two receivers that were ready, each with its own downloader, have taken messages of the same
  -- transfer in which the same set of chunks has arrived, in whatever order and with whatever
  -- repetitions. Then they have come equally far, and as far as that set says: both have passed on the
  -- same chunks in the same order, and both or neither have closed the download and run `onComplete`.
  pub handle_all-same :
      (before after : List Message) (is js : List ℕ) (ms ns : List Bytes) (r s : Receiver)
      → arrived is ≡ arrived js
      → AllCarry content before total is ms
      → AllCarry content after total js ns
      → IsReady before total r
      → IsReady after total s
      → HasReached content before total is (reach total (arrived is)) (handle_all ms r)
        × HasReached content after total js (reach total (arrived is)) (handle_all ns s)
  handle_all-same before after is js ms ns r s same cs ds v w = (
    handle_all-reach before is ms r cs v,
    subst (λ a. HasReached content after total js (reach total a) (handle_all ns s)) (sym same)
        (handle_all-reach after js ns s ds w),
  )
