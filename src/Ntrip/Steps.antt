-- ===== src/Ntrip/Steps.antt =====
-- src/ntrip/ins401_ntrip_client.cpp: every step of the two threads keeps what is sound.
use mathlib.Core.List.{flatten, append_assoc, append-nil}
use mathlib.Core.Path.{subst}
use asterx_driver.Base.{
  ℕ, ◌+◌, ◌≤◌, ◌<◌, ◌%◌, ◌^◌, Bool, true, false, List, [], ◌∷◌, ◌++◌, Bytes, length, length-append,
  leb, leb→gt, choice, if◌then◌else◌, ◌≡◌, refl, sym, ap, ◌∙◌, arith,
}
use asterx_driver.Ntrip.Chunks.{piece_size}
use asterx_driver.Ntrip.Blocks.{AtMost, chunk_rtcm_data-Passes, flatten-append}
use asterx_driver.Ntrip.Threads.{
  max_queue_size, Receiver, reading, reconnecting, waiting, Gone, taken, dropped, Run, drop_front,
  limit_queue, push, on_received, on_taken,
}
use asterx_driver.Ntrip.Sound.{
  pieces_of, taken_bytes, drops, pieces_of-append, taken_bytes-append, drops-append, pending_of,
  Queued, Flows, Counted, Sound,
}

AtMost-append :
    (size : ℕ) (queue : List Bytes) (piece : Bytes)
    → AtMost size queue
    → length piece ≤ size
    → AtMost size (queue ++ piece ∷ [])
AtMost-append size [] piece h le = (le, tt)
AtMost-append size (q ∷ queue) piece (le', h) le = (le', AtMost-append size queue piece h le)

-- There is room for a piece.
abbrev HasRoom : Run → Run → Type 0
HasRoom s s' = Sound s' × (length s'.data_queue < max_queue_size) × (s'.receiver ≡ reading)

drop_front-HasRoom :
    (queue : List Bytes) (s : Run)
    → s.data_queue ≡ queue
    → s.receiver ≡ reading
    → Sound s
    → HasRoom s (drop_front queue s)
drop_front-HasRoom [] s e r v = (v, subst (λ q. length q < max_queue_size) (sym e) (omega arith), r)
drop_front-HasRoom (piece ∷ queue) s e r v =
    let q : Queued (piece ∷ queue) s.arrived s.gone s.file_is_open s.base_file =
      subst (λ x. Queued x s.arrived s.gone s.file_is_open s.base_file) e v.queued in
    let same : taken_bytes (s.gone ++ dropped piece ∷ []) ≡ taken_bytes s.gone =
      taken_bytes-append s.gone (dropped piece ∷ []) ∙ append-nil (taken_bytes s.gone) in
    let n : s.messages_dropped ≡ drops s.gone % 2 ^ 64 =
      subst (λ x. Counted x s.messages_dropped s.gone) r v.counted in
    (
      record {
        queued = record {
          order =
              ap (λ x. x ++ queue) (pieces_of-append s.gone (dropped piece ∷ []))
              ∙ append_assoc (pieces_of s.gone) (piece ∷ []) queue
              ∙ q.order;
          bounded = let b = q.bounded in omega arith;
          small = (q.small).1;
          file = q.file ∙ ap (λ x. if s.file_is_open then x else []) (sym same);
        };
        blocks = v.blocks;
        flows =
            subst (Flows s.receiving s.chunker.rtcm_buffer (pending_of s.processor) s.delivered)
              (sym same) v.flows;
        counted =
            subst
              (λ x. Counted x ((s.messages_dropped + 1) % 2 ^ 64) (s.gone ++ dropped piece ∷ []))
              (sym r) (omega (arith, n, drops-append s.gone (dropped piece ∷ [])));
      },
      (let b = q.bounded in omega arith),
      r,
    )

push-Sound :
    (piece : Bytes) (n : ℕ) (s s' : Run)
    → length piece ≤ piece_size
    → HasRoom s s'
    → Sound (record (push piece s') { bytes_received = n; receiver = Receiver.testing })
push-Sound piece n s s' le (v, room, r) = record {
  queued = record {
    order =
        sym (append_assoc (pieces_of s'.gone) s'.data_queue (piece ∷ []))
        ∙ ap (λ x. x ++ piece ∷ []) v.queued.order;
    bounded = omega (arith, room, length-append s'.data_queue (piece ∷ []));
    small = AtMost-append piece_size s'.data_queue piece v.queued.small le;
    file = v.queued.file;
  };
  blocks = v.blocks;
  flows = v.flows;
  counted = subst (λ x. Counted x s'.messages_dropped s'.gone) r v.counted;
}

pub on_received-Sound :
    (piece : Bytes) (s : Run)
    → s.receiver ≡ reading
    → length piece ≤ piece_size
    → Sound s
    → Sound (on_received piece s)
unfolding on_received
on_received-Sound piece s r le v =
    push-Sound piece ((s.bytes_received + length piece) % 2 ^ 64) s (limit_queue s) le (
      choice (HasRoom s) (leb max_queue_size (length s.data_queue)) _ _
        (λ _. drop_front-HasRoom s.data_queue s refl r v)
        (λ h. (v, leb→gt max_queue_size (length s.data_queue) h, r)))

taken-Flows :
    (b : Bool) (buffer buffer' piece : Bytes) (ms delivered : List Bytes) (bytes : Bytes)
    → flatten ms ++ buffer' ≡ buffer ++ piece
    → Flows b buffer [] delivered bytes
    → Flows b buffer' ms delivered (bytes ++ piece)
unfolding flatten
taken-Flows true buffer buffer' piece ms delivered bytes e h =
    ap (λ x. flatten delivered ++ x) e
    ∙ sym (append_assoc (flatten delivered) buffer piece)
    ∙ ap (λ x. x ++ piece) h
taken-Flows false buffer buffer' piece ms delivered bytes e (rest, h) =
    (rest ++ piece, sym (append_assoc (flatten delivered) rest piece) ∙ ap (λ x. x ++ piece) h)

counted_taken :
    (r : Receiver) (n : ℕ) (piece : Bytes) (gone : List Gone)
    → Counted r n gone
    → Counted r n (gone ++ taken piece ∷ [])
counted_taken Receiver.ended n piece gone h = tt
counted_taken Receiver.testing n piece gone h =
    omega (arith, h, drops-append gone (taken piece ∷ []))
counted_taken reading n piece gone h = omega (arith, h, drops-append gone (taken piece ∷ []))
counted_taken reconnecting n piece gone h = omega (arith, h, drops-append gone (taken piece ∷ []))

file_taken :
    (opened : Bool) (file bytes piece after : Bytes)
    → file ≡ (if opened then bytes else [])
    → after ≡ bytes ++ piece
    → (if opened then file ++ piece else file) ≡ (if opened then after else [])
file_taken true file bytes piece after h e = ap (λ x. x ++ piece) h ∙ sym e
file_taken false file bytes piece after h e = h

pub on_taken-Sound :
    (piece : Bytes) (queue : List Bytes) (s : Run)
    → s.processor ≡ waiting
    → s.data_queue ≡ piece ∷ queue
    → Sound s
    → Sound (on_taken piece queue s)
unfolding on_taken
on_taken-Sound piece queue s p e v =
    let q : Queued (piece ∷ queue) s.arrived s.gone s.file_is_open s.base_file =
      subst (λ x. Queued x s.arrived s.gone s.file_is_open s.base_file) e v.queued in
    let more : taken_bytes (s.gone ++ taken piece ∷ []) ≡ taken_bytes s.gone ++ piece =
      taken_bytes-append s.gone (taken piece ∷ [])
      ∙ ap (λ x. taken_bytes s.gone ++ x) (append-nil piece) in
    let short = v.blocks.short in
    let limit = v.blocks.limit in
    let small = (q.small).0 in
    let passes = chunk_rtcm_data-Passes s.chunker piece short (omega arith) in
    let h : Flows s.receiving s.chunker.rtcm_buffer [] s.delivered (taken_bytes s.gone) =
      subst
        (λ x.
          Flows s.receiving s.chunker.rtcm_buffer (pending_of x) s.delivered (taken_bytes s.gone))
        p v.flows in
    record {
      queued = record {
        order =
            ap (λ x. x ++ queue) (pieces_of-append s.gone (taken piece ∷ []))
            ∙ append_assoc (pieces_of s.gone) (piece ∷ []) queue
            ∙ q.order;
        bounded = let b = q.bounded in omega arith;
        small = (q.small).1;
        file = file_taken s.file_is_open s.base_file (taken_bytes s.gone) piece _ q.file more;
      };
      blocks = record {
        short = passes.short;
        limit = passes.limit ∙ limit;
        ready = passes.sizes;
        sizes = v.blocks.sizes;
      };
      flows = subst (Flows s.receiving _ _ s.delivered) (sym more) (
          taken-Flows s.receiving s.chunker.rtcm_buffer _ piece _ s.delivered (taken_bytes s.gone)
            passes.whole h);
      counted = counted_taken s.receiver s.messages_dropped piece s.gone v.counted;
    }

-- A message is handed over.
pub delivered-Flows :
    (buffer m : Bytes) (ms delivered : List Bytes) (bytes : Bytes)
    → Flows true buffer (m ∷ ms) delivered bytes
    → Flows true buffer ms (delivered ++ m ∷ []) bytes
unfolding flatten
delivered-Flows buffer m ms delivered bytes h =
    ap (λ x. x ++ (flatten ms ++ buffer))
      (flatten-append delivered (m ∷ []) ∙ ap (λ x. flatten delivered ++ x) (append-nil m))
    ∙ append_assoc (flatten delivered) m (flatten ms ++ buffer)
    ∙ ap (λ x. flatten delivered ++ x) (sym (append_assoc m (flatten ms) buffer))
    ∙ h
