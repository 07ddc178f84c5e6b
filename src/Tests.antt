-- ===== src/Tests.antt =====
-- Test runs of the definitions, and the theorems at concrete inputs.
mod Files
mod Runs
mod Receiving
mod Sending
mod Whole
mod Workers
mod Streamed
mod Abandoned
mod Candidates
mod Signals
mod ReceivePage
mod SendPage
mod Again
mod Descriptions
mod Yields
