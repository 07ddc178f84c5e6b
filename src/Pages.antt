-- ===== src/Pages.antt =====
-- The two pages, web/static/js/send.js and web/static/js/receive.js, around `SignalingClient` and
-- `TransferEngine`. What a page hands to its engine is recorded as a list of calls.
pub mod Receive
pub mod Send
use p2ptransfer.Base.{ℕ, Option}

-- The message types of the signaling server that the pages name.
abbrev pub offer_kind : ℕ
offer_kind = 0

abbrev pub answer_kind : ℕ
answer_kind = 1

abbrev pub candidate_kind : ℕ
candidate_kind = 2

abbrev pub joined_kind : ℕ
joined_kind = 3

abbrev pub disconnected_kind : ℕ
disconnected_kind = 4

-- The payload of a message: `index`, and `candidate` where there is one. The descriptions of offers
-- and answers are left out.
pub record Payload : Type 0 where
  pub index : ℕ
  pub candidate : Option ℕ
