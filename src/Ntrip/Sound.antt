-- ===== src/Ntrip/Sound.antt =====
-- src/ntrip/ins401_ntrip_client.cpp: what holds whenever the threads run.
use mathlib.Core.List.{flatten, append_assoc}
use asterx_driver.Base.{
  ℕ, suc, ◌+◌, ◌≤◌, ◌<◌, ◌%◌, ◌^◌, Bool, true, false, List, [], ◌∷◌, ◌++◌, Bytes, length,
  if◌then◌else◌, ◌≡◌, refl, sym, ap, ◌∙◌, arith,
}
use asterx_driver.Ntrip.Chunks.{Chunker, chunk_size, piece_size}
use asterx_driver.Ntrip.Blocks.{AllOf, AtMost}
use asterx_driver.Ntrip.Threads.{
  max_queue_size, max_buffer_size, Receiver, Processor, delivering, Gone, taken, dropped, Run,
}

abbrev pub piece_of : Gone → Bytes
piece_of (taken piece) = piece
piece_of (dropped piece) = piece

abbrev pub pieces_of : List Gone → List Bytes
pieces_of [] = []
pieces_of (g ∷ gone) = piece_of g ∷ pieces_of gone

abbrev pub taken_bytes : List Gone → Bytes
taken_bytes [] = []
taken_bytes (taken piece ∷ gone) = piece ++ taken_bytes gone
taken_bytes (dropped piece ∷ gone) = taken_bytes gone

abbrev pub drops : List Gone → ℕ
drops [] = 0
drops (taken piece ∷ gone) = drops gone
drops (dropped piece ∷ gone) = suc (drops gone)

pub pieces_of-append : (gs hs : List Gone) → pieces_of (gs ++ hs) ≡ pieces_of gs ++ pieces_of hs
pieces_of-append [] hs = refl
pieces_of-append (g ∷ gs) hs = ap (◌∷◌ (piece_of g)) (pieces_of-append gs hs)

pub taken_bytes-append :
    (gs hs : List Gone) → taken_bytes (gs ++ hs) ≡ taken_bytes gs ++ taken_bytes hs
taken_bytes-append [] hs = refl
taken_bytes-append (taken piece ∷ gs) hs =
    ap (λ s. piece ++ s) (taken_bytes-append gs hs)
    ∙ sym (append_assoc piece (taken_bytes gs) (taken_bytes hs))
taken_bytes-append (dropped piece ∷ gs) hs = taken_bytes-append gs hs

pub drops-append : (gs hs : List Gone) → drops (gs ++ hs) ≡ drops gs + drops hs
drops-append [] hs = omega arith
drops-append (taken piece ∷ gs) hs = drops-append gs hs
drops-append (dropped piece ∷ gs) hs = omega (arith, drops-append gs hs)

-- The messages that the processing thread has not handed over yet.
abbrev pub pending_of : Processor → List Bytes
pending_of (delivering ms) = ms
pending_of _ = []

-- Every piece leaves the queue in the order in which it came, the queue is bounded, and the file has
-- the pieces that were not dropped.
pub record Queued (queue arrived : List Bytes) (gone : List Gone) (opened : Bool)
    (base_file : Bytes) : Type 0 where
  pub order : pieces_of gone ++ queue ≡ arrived
  pub bounded : length queue ≤ max_queue_size
  pub small : AtMost piece_size queue
  pub file : base_file ≡ (if opened then taken_bytes gone else [])

pub record Blocks (c : Chunker) (pending delivered : List Bytes) : Type 0 where
  pub short : length c.rtcm_buffer < chunk_size
  pub limit : c.max_buffer_size ≡ max_buffer_size
  pub ready : AllOf chunk_size pending
  pub sizes : AllOf chunk_size delivered

-- While the threads receive, every byte that was taken from the queue was handed over, waits to be, or
-- is in the buffer. After that the bytes handed over are a first part of those taken.
abbrev pub Flows : Bool → Bytes → List Bytes → List Bytes → Bytes → Type 0
Flows true buffer pending delivered bytes = flatten delivered ++ (flatten pending ++ buffer) ≡ bytes
Flows false buffer pending delivered bytes = (rest : Bytes) × (flatten delivered ++ rest ≡ bytes)

-- Until the receiving thread has ended, the drops are counted.
abbrev pub Counted : Receiver → ℕ → List Gone → Type 0
Counted Receiver.ended n gone = Unit
Counted _ n gone = n ≡ drops gone % 2 ^ 64

pub record Sound (s : Run) : Type 0 where
  pub queued : Queued s.data_queue s.arrived s.gone s.file_is_open s.base_file
  pub blocks : Blocks s.chunker (pending_of s.processor) s.delivered
  pub flows :
      Flows s.receiving s.chunker.rtcm_buffer
        (pending_of s.processor)
        s.delivered
        (taken_bytes s.gone)
  pub counted : Counted s.receiver s.messages_dropped s.gone

-- Reception may stop at any time.
pub stopped-Flows :
    (b : Bool) (buffer : Bytes) (pending delivered : List Bytes) (bytes : Bytes)
    → Flows b buffer pending delivered bytes
    → Flows false buffer pending delivered bytes
stopped-Flows true buffer pending delivered bytes h = (flatten pending ++ buffer, h)
stopped-Flows false buffer pending delivered bytes h = h
