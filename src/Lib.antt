-- ===== src/Lib.antt =====
-- FastTransfer: the browser side of a file transfer over several connections at once.
--
-- A sender cuts a file into chunks, and twelve pumps (eight WebSocket relays and four WebRTC data
-- channels) claim batches of them and send them as frames. A receiver takes the frames from all
-- connections, puts the chunks in order and hands them to a downloader, which streams them through a
-- service worker or collects them for a Blob. All of the code modelled here is in
-- web/static/js/transfer.js, but for the service worker, which is web/static/js/sw.js, and the two
-- pages, which are web/static/js/send.js and web/static/js/receive.js.
--
--   Wire       the frame (`setUint32`, `getUint32`) and the cutting of a file; Wire/Codec reads
--              frames back, Wire/Split puts the payloads together again.
--   Batch      the reads of `_readBatch`; Batch/Fast compares its large read with single reads.
--   Sender     counters, retry queue, `_moreWork`, `_requeue`, the claim of `_readBatch`,
--              `_checkDone`; Sender/Claiming is about the claim.
--   Streams    `_relayPump` and `_p2pPump`, one round of their loops at a time (`round`).
--              Streams/Schedule has `createOffer`, `destroy`, `_tryStart`, `_waitForDrain` and runs of a
--              schedule of events. Flight, Rounds, Conns, Invariant, Starting and Events carry the
--              ledger of chunks from a round to a run; Exactly, Backpressure, Healthy, Finish,
--              Abandoned and Closed draw from it. Quiet is about pumps with nothing to do, which
--              Stall and Again use; Again is about a second `createOffer`, Destroyed about `destroy`.
--   Download   `StreamingDownloader`, with the awaits of `prepare` as events; Download/Progress says
--              what it has passed on, Download/Early what it loses.
--   Receiver   `_onFileInfoReceived`, `_handleChunk`, `_writeChunk`, `_finishDownload`. Drain, Place,
--              Settled and Delivery take the invariant through `_handleChunk`, Transfer is about a
--              whole transfer, Order about two that differ in order, Ready about how it begins, Early
--              about chunks before the file info.
--   Worker     the handlers of the service worker. Streams and Sound have its invariant, Isolated two
--              downloads side by side, Stages, Turns and Delivery one download.
--   Ice        `addIceCandidate`, `handleOffer`, `handleAnswer` on one connection index; Ice/Once is
--              about one offer, Ice/Again about a second `createOffer`, with the handlers in Ice/Handlers.
--   Signal     `SignalingClient`; Signal/Calls has the handlers it calls and the promise of
--              `waitOpen`, Signal/Outside what events from the socket leave alone.
--   Pages      the two pages around it. Pages/Receive is web/static/js/receive.js, with Countdown
--              about its start, Cards, Socket and Steps about what it shows, Follows and Relayed about what it
--              hands to its engine, Candidates about the way of a candidate from the server to its
--              connection. Pages/Send is web/static/js/send.js, with Cards, Socket and Steps about
--              what it shows, Rooms and Requests about the rooms it asks for, Stuck about a socket
--              that fails, Copy about the copy button.
--   Sdp        `_fixSDP`; Sdp/Lines is about descriptions made of lines.
--   Yielder    `createYielder`, the yields of a pump.
--   EndToEnd   the sender's run, a network that reorders and repeats, and the receiver;
--              EndToEnd/Streamed adds the service worker, EndToEnd/Prefix is about transfers that are
--              not over, EndToEnd/Lost about a chunk that a closed socket has taken.
--   Base       library names, tests on numbers, lists, maps and counts.
--   Tests      runs of the definitions on concrete inputs.
--
-- A byte is a number below 256 and a buffer a list of them; no theorem needs the bound. Numbers are
-- natural numbers, in place of the integers below 2 ^ 53 that the source computes with; the index in
-- a frame keeps its 32 bits, and theorems that need it bound the number of chunks. JavaScript runs a
-- handler up to its next `await`, so a schedule is a list of events, each a handler or a round of a
-- pump between two awaits: a connection opens, closes, drains or loses its read, a pump goes on
-- (with a `send` that throws or not), `_waitForDrain` polls. Any list is a schedule. What `send` has
-- taken is in `sent`; that the network delivers it is the hypothesis `Delivers` of EndToEnd. In the
-- same way the platform's answers to `prepare` are the type `Reply`, and the events of the service
-- worker are the page's messages, the browser's requests and its cancellations.
--
-- The loop of `_handleChunk` that drains buffered chunks runs on fuel, the number of buffered
-- chunks, since each round takes one of them out. The number of rounds that one pump needs is
-- bounded by `to_do` of Streams/Healthy.
--
-- A page is a state, the calls it has made of its engine and the cards it shows; its events are the
-- visitor's, the timers', the socket's, the engine's callbacks, and the server's replies to `fetch`.
-- Message types are numbers, and a text is what `JSON.parse` makes of it, or none.
--
-- Not modelled: the set-up of WebRTC connections (`_createPC`, `_addTurn`), the speed statistics and
-- the formatting of sizes and times, and the parts of the pages that only display. The server (cmd,
-- internal) and the command line (cli) are other programs; they are the network here. Ids of
-- downloads are numbers in place of random text, times and callbacks that only display are left out,
-- and `onComplete` is counted. A `Math.ceil` of a quotient is exact.
pub mod Base
pub mod Wire
pub mod Batch
pub mod Worker
pub mod Download
pub mod Receiver
pub mod Sender
pub mod Streams
pub mod Ice
pub mod Signal
pub mod Pages
pub mod Sdp
pub mod Yielder
pub mod EndToEnd
pub mod Tests
