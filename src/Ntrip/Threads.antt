-- ===== src/Ntrip/Threads.antt =====
-- src/ntrip/ins401_ntrip_client.cpp: `ReceiveThread` and `ProcessThread`, from `StartReceiving` on, with
-- the default options for the queue and the reconnection.
use asterx_driver.Base.{
  ℕ, ◌+◌, ◌≤◌, ◌%◌, ◌^◌, Bool, true, false, ◌&&◌, List, [], ◌∷◌, ◌++◌, Bytes, length, leb,
  if◌then◌else◌, ◌≡◌, ◌≢◌,
}
use asterx_driver.Ntrip.Chunks.{Chunker, chunk_rtcm_data, piece_size}

abbrev pub max_queue_size : ℕ
max_queue_size = 1024

abbrev pub max_buffer_size : ℕ
max_buffer_size = 8388608

-- Where the threads are. The processing thread has messages to hand over.
pub data Receiver : Type 0 where
  testing reading reconnecting ended : Receiver

pub data Processor : Type 0 where
  testing waiting ended : Processor
  delivering : List Bytes → Processor

-- How a piece left the queue.
pub data Gone : Type 0 where
  taken dropped : Bytes → Gone

-- The members that the threads share and their own. The last four fields record what was done: the
-- pieces that were put into the queue and those that left it, what was written to the file of the
-- base stream, and the messages handed to the callbacks.
pub record Run : Type 0 where
  pub receiving : Bool
  pub connected : Bool
  pub data_queue : List Bytes
  pub bytes_received : ℕ
  pub messages_dropped : ℕ
  pub chunker : Chunker
  pub file_is_open : Bool
  pub receiver : Receiver
  pub processor : Processor
  pub arrived : List Bytes
  pub gone : List Gone
  pub base_file : Bytes
  pub delivered : List Bytes

abbrev pub first_queue : Bytes → List Bytes
first_queue [] = []
first_queue (b ∷ pending) = (b ∷ pending) ∷ []

-- `StartReceiving` on a client that is connected, with the bytes behind the response's header.
abbrev pub started : Bool → Bytes → Run
started opened pending = record {
  receiving = true;
  connected = true;
  data_queue = first_queue pending;
  bytes_received = 0;
  messages_dropped = 0;
  chunker = record {
    max_buffer_size = max_buffer_size;
    rtcm_buffer = [];
    rtcm_sync_lost_count = 0;
    messages_received = 0;
  };
  file_is_open = opened;
  receiver = Receiver.testing;
  processor = Processor.testing;
  arrived = first_queue pending;
  gone = [];
  base_file = [];
  delivered = [];
}

-- The oldest piece is dropped.
abbrev pub drop_front : List Bytes → Run → Run
drop_front [] s = s
drop_front (piece ∷ queue) s = record s {
  data_queue = queue;
  messages_dropped = (s.messages_dropped + 1) % 2 ^ 64;
  gone = s.gone ++ dropped piece ∷ [];
}

abbrev pub limit_queue : Run → Run
limit_queue s = if leb max_queue_size (length s.data_queue) then drop_front s.data_queue s else s

abbrev pub push : Bytes → Run → Run
push piece s = record s {
  data_queue = s.data_queue ++ piece ∷ [];
  arrived = s.arrived ++ piece ∷ [];
}

unfoldable pub on_received : Bytes → Run → Run
on_received piece s = record (push piece (limit_queue s)) {
  bytes_received = (s.bytes_received + length piece) % 2 ^ 64;
  receiver = Receiver.testing;
}

-- The front of the queue, and what is behind it.
unfoldable pub on_taken : Bytes → List Bytes → Run → Run
on_taken piece queue s =
    let r = chunk_rtcm_data piece s.chunker in
    record s {
      data_queue = queue;
      gone = s.gone ++ taken piece ∷ [];
      base_file = if s.file_is_open then s.base_file ++ piece else s.base_file;
      chunker = r.1;
      processor = delivering (r.0);
    }

-- `Connect` starts the statistics again.
abbrev pub on_reconnected : Run → Run
on_reconnected s = record s {
  connected = true;
  bytes_received = 0;
  messages_dropped = 0;
  chunker = record s.chunker { messages_received = 0 };
  receiver = Receiver.ended;
}

-- The receiving thread.
pub data ReceiveStep (s : Run) : Run → Type 0 where
  go_on :
      s.receiver ≡ Receiver.testing
      → (s.receiving && s.connected) ≡ true
      → ReceiveStep s (record s { receiver = reading })
  leave :
      s.receiver ≡ Receiver.testing
      → (s.receiving && s.connected) ≡ false
      → ReceiveStep s (record s { receiver = Receiver.ended })
  receive :
      (piece : Bytes)
      → s.receiver ≡ reading
      → 1 ≤ length piece
      → length piece ≤ piece_size
      → ReceiveStep s (on_received piece s)
  -- `EAGAIN` and the like
  retry : s.receiver ≡ reading → ReceiveStep s (record s { receiver = Receiver.testing })
  -- a close of the caster's, or an error
  lose :
      s.receiver ≡ reading
      → ReceiveStep s (record s {
        connected = false;
        receiver = if s.receiving then reconnecting else Receiver.ended;
      })
  -- `HandleReconnect` returns
  reconnect : s.receiver ≡ reconnecting → ReceiveStep s (on_reconnected s)
  give_up :
      s.receiver ≡ reconnecting
      → ReceiveStep s (record s { receiving = false; receiver = Receiver.ended })
  -- an exception of `LogErrorOrWarn`
  throw_error :
      s.receiver ≢ Receiver.ended
      → ReceiveStep s (record s { connected = false; receiving = false; receiver = Receiver.ended })

-- The processing thread.
pub data ProcessStep (s : Run) : Run → Type 0 where
  go_on :
      s.processor ≡ Processor.testing
      → s.receiving ≡ true
      → ProcessStep s (record s { processor = waiting })
  leave :
      s.processor ≡ Processor.testing
      → s.receiving ≡ false
      → ProcessStep s (record s { processor = Processor.ended })
  wake :
      s.processor ≡ waiting
      → s.receiving ≡ false
      → s.data_queue ≡ []
      → ProcessStep s (record s { processor = Processor.ended })
  take_front :
      (piece : Bytes) (queue : List Bytes)
      → s.processor ≡ waiting
      → s.data_queue ≡ piece ∷ queue
      → ProcessStep s (on_taken piece queue s)
  deliver :
      (m : Bytes) (ms : List Bytes)
      → s.processor ≡ delivering (m ∷ ms)
      → s.receiving ≡ true
      → ProcessStep s (record s { processor = delivering ms; delivered = s.delivered ++ m ∷ [] })
  break_off :
      (m : Bytes) (ms : List Bytes)
      → s.processor ≡ delivering (m ∷ ms)
      → s.receiving ≡ false
      → ProcessStep s (record s { processor = Processor.testing })
  finish : s.processor ≡ delivering [] → ProcessStep s (record s { processor = Processor.testing })
  -- an exception of a callback
  throw_error :
      (m : Bytes) (ms : List Bytes)
      → s.processor ≡ delivering (m ∷ ms)
      → s.receiving ≡ true
      → ProcessStep s (record s { receiving = false; processor = Processor.ended })

-- The threads take turns in any way, and `StopReceiving` may come at any time.
pub data Step (s : Run) : Run → Type 0 where
  receive_thread : {t : Run} → ReceiveStep s t → Step s t
  process_thread : {t : Run} → ProcessStep s t → Step s t
  stop_receiving : Step s (record s { receiving = false })

pub data Reach (s : Run) : Run → Type 0 where
  here : Reach s s
  then_step : {t u : Run} → Reach s t → Step t u → Reach s u
