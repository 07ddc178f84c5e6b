-- ===== src/Streams/Rounds.antt =====
-- Every round of a pump, wherever it stands, keeps what Streams/Flight says.
use p2ptransfer.Base.{
  ◌≡◌, refl, sym, ap, ◌∙◌, subst, some-injective, List, [], ◌∷◌, map, Option, none, some, Bool,
  true, false, if◌then◌else◌, ltb, arith, length, count, count-append, length-append, All,
}
use p2ptransfer.Wire.{Bytes}
use p2ptransfer.Batch.{Chunk, Claim, claimed, read_chunk, read_claim}
use p2ptransfer.Batch.Fast.{read_claim-map}
use p2ptransfer.Sender.{Engine, more_work, requeue, claim_batch, count_sent}
use p2ptransfer.Sender.Claiming.{Claims, claim_batch-Claims}
use p2ptransfer.Streams.{
  Kind, relay, p2p, Pump, unstarted, testing, ended, reading, rejected, sending, waiting, Conn,
  Round, indices, goes, give_up, try_send, send_or_wait, inner, resumed, batch_done, next_batch,
  batch_read, round, buf_high,
}
use p2ptransfer.Streams.Flight.{flight, IsGenuine, IsSound, IsGenuine-map, Fits, Keeps}

module _ (file : Bytes) where
  -- What a read gives has the indices of its claim, and is the file's.
  read-batch :
      {e : Engine} (f : Fits file e) (claim : Claim) (batch : List Chunk)
      → IsSound file (reading claim)
      → read_claim e.file claim ≡ some batch
      → (indices batch ≡ claimed claim) × All (IsGenuine file) batch
  read-batch f claim batch s read =
      let same : map (read_chunk file) (claimed claim) ≡ batch = some-injective _ _ (
        sym (read_claim-map file claim s)
        ∙ ap (λ g. read_claim g claim) (sym f.file_kept)
        ∙ read) in
      subst (λ b. (indices b ≡ claimed claim) × All (IsGenuine file) b) same
        (IsGenuine-map file (claimed claim))

  module _ {e : Engine} {c : Conn} (f : Fits file e) where
    goes-Keeps : (p q : Pump) → flight q ≡ flight p → IsSound file q → Keeps file e p c (goes q e c)
    goes-Keeps p q same s = record {
      fits = f;
      counts = λ a. omega (arith, ap (count a) same);
      lengths = omega (arith, ap length same);
      sound = s;
      genuine = tt;
      sent = omega arith;
      bytes = omega arith;
      started = refl;
      fired = ground arith;
      draining = ground arith;
      completions = refl;
      kept_conn = (refl, refl, refl);
    }

    give_up-Keeps :
        (p : Pump) (batch : List Chunk)
        → flight p ≡ indices batch
        → Keeps file e p c (give_up batch e c)
    unfolding give_up requeue
    give_up-Keeps p batch same = record {
      fits = record { file_kept = f.file_kept; total = f.total; next_le = f.next_le };
      counts =
          λ a. omega (arith, ap (count a) same, count-append a e.retry_indices (indices batch));
      lengths = omega (arith, ap length same, length-append e.retry_indices (indices batch));
      sound = tt;
      genuine = tt;
      sent = omega arith;
      bytes = omega arith;
      started = refl;
      fired = ground arith;
      draining = ground arith;
      completions = refl;
      kept_conn = (refl, refl, refl);
    }

    if-Keeps :
        {p : Pump} {r r' : Round} (b : Bool)
        → Keeps file e p c r
        → Keeps file e p c r'
        → Keeps file e p c (if b then r else r')
    if-Keeps true k k' = k
    if-Keeps false k k' = k'

    try_send-Keeps :
        (throws : Bool) (p : Pump) (chunk : Chunk) (rest : List Chunk)
        → flight p ≡ indices (chunk ∷ rest)
        → All (IsGenuine file) (chunk ∷ rest)
        → Keeps file e p c (try_send throws chunk rest e c)
    unfolding try_send count_sent
    try_send-Keeps true p chunk rest same g = give_up-Keeps p (chunk ∷ rest) same
    try_send-Keeps false p chunk rest same g = record {
      fits = record {
        file_kept = ground (arith, f.file_kept);
        total = ground (arith, f.total);
        next_le = ground (arith, f.next_le);
      };
      counts = λ a. ground (arith, ap (count a) same);
      lengths = ground (arith, ap length same);
      sound = g.1;
      genuine = (g.0, tt);
      sent = ground arith;
      bytes = ground arith;
      started = ground arith;
      fired = ground arith;
      draining = ground arith;
      completions = ground arith;
      kept_conn = (refl, refl, refl);
    }

    send_or_wait-Keeps :
        (throws : Bool) (p : Pump) (chunk : Chunk) (rest : List Chunk)
        → flight p ≡ indices (chunk ∷ rest)
        → All (IsGenuine file) (chunk ∷ rest)
        → Keeps file e p c (send_or_wait throws chunk rest e c)
    unfolding send_or_wait
    send_or_wait-Keeps throws p chunk rest same g =
        if-Keeps (ltb (buf_high c.kind) c.buffered)
          (goes-Keeps p (waiting (chunk ∷ rest)) (sym same) g)
          (try_send-Keeps throws p chunk rest same g)

    inner-Keeps :
        (throws : Bool) (p : Pump) (chunk : Chunk) (rest : List Chunk)
        → flight p ≡ indices (chunk ∷ rest)
        → All (IsGenuine file) (chunk ∷ rest)
        → Keeps file e p c (inner throws chunk rest e c)
    unfolding inner
    inner-Keeps throws p chunk rest same g =
        if-Keeps c.open_now (send_or_wait-Keeps throws p chunk rest same g)
          (give_up-Keeps p (chunk ∷ rest) same)

    resumed-Keeps :
        (kind : Kind) (throws : Bool) (chunk : Chunk) (rest : List Chunk)
        → All (IsGenuine file) (chunk ∷ rest)
        → Keeps file e (waiting (chunk ∷ rest)) c (resumed kind throws chunk rest e c)
    unfolding resumed
    resumed-Keeps relay throws chunk rest g =
        if-Keeps (ltb (buf_high relay) c.buffered)
          (if-Keeps c.open_now (goes-Keeps (waiting (chunk ∷ rest)) (waiting (chunk ∷ rest)) refl g)
            (give_up-Keeps (waiting (chunk ∷ rest)) (chunk ∷ rest) refl))
          (try_send-Keeps throws (waiting (chunk ∷ rest)) chunk rest refl g)
    resumed-Keeps p2p throws chunk rest g =
        inner-Keeps throws (waiting (chunk ∷ rest)) chunk rest refl g

    batch_done-Keeps :
        (kind : Kind) (p : Pump) → flight p ≡ [] → Keeps file e p c (batch_done kind e c)
    unfolding batch_done
    batch_done-Keeps relay p none_left = goes-Keeps p testing (sym none_left) tt
    batch_done-Keeps p2p p none_left =
        if-Keeps c.open_now (goes-Keeps p testing (sym none_left) tt)
          (goes-Keeps p ended (sym none_left) tt)

    next_batch-Keeps : Keeps file e testing c (next_batch e c)
    unfolding next_batch claim_batch
    next_batch-Keeps = if-Keeps (more_work e) claims (goes-Keeps testing ended refl tt)
      where
        made : Claims e (claim_batch e).0 (claim_batch e).1
        made = claim_batch-Claims e (omega (arith, f.next_le, f.total))

        claims : Keeps file e testing c (goes (reading (claim_batch e).0) (claim_batch e).1 c)
        claims = record {
          fits = record {
            file_kept = f.file_kept;
            total = f.total;
            next_le = omega (arith, f.next_le, f.total);
          };
          counts = λ a. omega (arith, made.counts a);
          lengths = omega (arith, made.sizes);
          sound = omega (arith, made.in_range, f.total);
          genuine = tt;
          sent = omega arith;
          bytes = omega arith;
          started = refl;
          fired = ground arith;
          draining = ground arith;
          completions = refl;
          kept_conn = (refl, refl, refl);
        }

    batch_read-Keeps :
        (claim : Claim) (batch : Option (List Chunk))
        → IsSound file (reading claim)
        → read_claim e.file claim ≡ batch
        → Keeps file e (reading claim) c (batch_read batch claim e c)
    unfolding batch_read
    batch_read-Keeps claim none s read = goes-Keeps (reading claim) (rejected claim) refl s
    batch_read-Keeps claim (some []) s read =
        goes-Keeps (reading claim) ended ((read-batch f claim [] s read).0) tt
    batch_read-Keeps claim (some (chunk ∷ rest)) s read =
        goes-Keeps (reading claim) (sending (chunk ∷ rest))
          (read-batch f claim (chunk ∷ rest) s read).0 (read-batch f claim (chunk ∷ rest) s read).1

    -- Every round of a pump, whatever the connection does, keeps the chunks.
    pub round-Keeps :
        (throws : Bool) (p : Pump) → IsSound file p → Keeps file e p c (round throws e p c)
    unfolding round
    round-Keeps throws unstarted s = goes-Keeps unstarted unstarted refl tt
    round-Keeps throws ended s = goes-Keeps ended ended refl tt
    round-Keeps throws (rejected claim) s = goes-Keeps (rejected claim) (rejected claim) refl s
    round-Keeps throws testing s = next_batch-Keeps
    round-Keeps throws (reading claim) s = batch_read-Keeps claim (read_claim e.file claim) s refl
    round-Keeps throws (sending []) s = batch_done-Keeps c.kind (sending []) refl
    round-Keeps throws (sending (chunk ∷ rest)) s =
        inner-Keeps throws (sending (chunk ∷ rest)) chunk rest refl s
    round-Keeps throws (waiting []) s = batch_done-Keeps c.kind (waiting []) refl
    round-Keeps throws (waiting (chunk ∷ rest)) s = resumed-Keeps c.kind throws chunk rest s
