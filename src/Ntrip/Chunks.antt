-- ===== src/Ntrip/Chunks.antt =====
-- src/ntrip/ins401_ntrip_client.cpp: `ChunkRTCMData`.
use asterx_driver.Base.{
  ℕ, zero, suc, ◌+◌, ◌%◌, ◌^◌, List, [], ◌∷◌, ◌++◌, Bytes, length, take, drop, ltb, leb,
  if◌then◌else◌,
}

-- The members of `NTRIPClient` that only the processing thread uses, with `Options::max_buffer_size`,
-- and `Statistics::messages_received`.
pub record Chunker : Type 0 where
  pub max_buffer_size : ℕ
  pub rtcm_buffer : Bytes
  pub rtcm_sync_lost_count : ℕ
  pub messages_received : ℕ

abbrev pub chunk_size : ℕ
chunk_size = 1024

-- The size of the receiving thread's buffer.
abbrev pub piece_size : ℕ
piece_size = 65536

-- What the loop has cut off, and what stays in the buffer.
pub record Cut : Type 0 where
  pub messages : List Bytes
  pub left : Bytes

-- Each round takes `size` bytes.
unfoldable pub cut_loop : ℕ → ℕ → Bytes → Cut
cut_loop size zero b = record { messages = []; left = b }
cut_loop size (suc fuel) b =
    let next = cut_loop size fuel (drop size b) in
    if leb size (length b)
    then record { messages = take size b ∷ next.messages; left = next.left }
    else record { messages = []; left = b }

-- The buffer is emptied when the new bytes do not fit.
abbrev pub make_room : ℕ → Chunker → Chunker
make_room size s =
    if ltb s.max_buffer_size (length s.rtcm_buffer + size)
    then record s { rtcm_buffer = []; rtcm_sync_lost_count = (s.rtcm_sync_lost_count + 1) % 2 ^ 64 }
    else s

abbrev pub chunk_buffer : Bytes → Chunker → List Bytes × Chunker
chunk_buffer all s =
    let cut = cut_loop chunk_size (length all) all in
    (
      cut.messages,
      record s {
        rtcm_buffer = cut.left;
        messages_received = (s.messages_received + length cut.messages) % 2 ^ 64;
      },
    )

unfoldable pub chunk_rtcm_data : Bytes → Chunker → List Bytes × Chunker
chunk_rtcm_data [] s = ([], s)
chunk_rtcm_data (b ∷ data_bytes) s =
    let s' = make_room (length (b ∷ data_bytes)) s in
    chunk_buffer (s'.rtcm_buffer ++ b ∷ data_bytes) s'

-- One piece after another.
unfoldable pub chunk_all : List Bytes → Chunker → List Bytes × Chunker
chunk_all [] s = ([], s)
chunk_all (piece ∷ pieces) s =
    let first = chunk_rtcm_data piece s in
    let others = chunk_all pieces (first.1) in (first.0 ++ others.0, others.1)
