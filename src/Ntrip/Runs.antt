-- ===== src/Ntrip/Runs.antt =====
-- src/ntrip/ins401_ntrip_client.cpp: the runs of the two threads, however they take turns.
use mathlib.Core.List.{flatten}
use mathlib.Core.Path.{subst}
use asterx_driver.Base.{
  ◌≤◌, Bool, true, false, [], ◌∷◌, ◌++◌, Bytes, length, choice, if◌then◌else◌, ◌≡◌, refl, sym, ap,
  arith,
}
use asterx_driver.Ntrip.Chunks.{chunk_size, piece_size}
use asterx_driver.Ntrip.Blocks.{AllOf, AllOf-append}
use asterx_driver.Ntrip.Threads.{
  Receiver, Processor, reading, reconnecting, waiting, Run, started, ReceiveStep, ProcessStep,
  go_on, leave, receive, retry, lose, reconnect, give_up, throw_error, wake, take_front, deliver,
  break_off, finish, Step, receive_thread, process_thread, stop_receiving, Reach, here, then_step,
}
use asterx_driver.Ntrip.Sound.{
  taken_bytes, pending_of, Blocks, Flows, Counted, Sound, stopped-Flows,
}
use asterx_driver.Ntrip.Steps.{on_received-Sound, on_taken-Sound, delivered-Flows}

-- The processing thread goes on with the same messages.
moved-Sound :
    (s : Run) (p : Processor)
    → pending_of s.processor ≡ pending_of p
    → Sound s
    → Sound (record s { processor = p })
moved-Sound s p e v = record {
  queued = v.queued;
  blocks = subst (λ x. Blocks s.chunker x s.delivered) e v.blocks;
  flows =
      subst (λ x. Flows s.receiving s.chunker.rtcm_buffer x s.delivered (taken_bytes s.gone)) e
        v.flows;
  counted = v.counted;
}

-- The threads are told to stop.
halted-Sound :
    (s : Run) (c : Bool) (r : Receiver)
    → Counted r s.messages_dropped s.gone
    → Sound s
    → Sound (record s { connected = c; receiving = false; receiver = r })
halted-Sound s c r n v = record {
  queued = v.queued;
  blocks = v.blocks;
  flows =
      stopped-Flows s.receiving s.chunker.rtcm_buffer (pending_of s.processor) s.delivered _
        v.flows;
  counted = n;
}

-- The receiving thread is somewhere else.
turned-Sound :
    (s : Run) (c : Bool) (r : Receiver)
    → Counted r s.messages_dropped s.gone
    → Sound s
    → Sound (record s { connected = c; receiver = r })
turned-Sound s c r n v = record {
  queued = v.queued;
  blocks = v.blocks;
  flows = v.flows;
  counted = n;
}

-- The messages that are left are given up.
broken_off-Sound :
    (s : Run) (b : Bool) (p : Processor)
    → pending_of p ≡ []
    → Flows b s.chunker.rtcm_buffer (pending_of p) s.delivered (taken_bytes s.gone)
    → Sound s
    → Sound (record s { receiving = b; processor = p })
broken_off-Sound s b p e f v = record {
  queued = v.queued;
  blocks = record {
    short = v.blocks.short;
    limit = v.blocks.limit;
    ready = subst (AllOf chunk_size) (sym e) tt;
    sizes = v.blocks.sizes;
  };
  flows = f;
  counted = v.counted;
}

counted_at :
    (s : Run) (r : Receiver) → s.receiver ≡ r → Sound s → Counted r s.messages_dropped s.gone
counted_at s r e v = subst (λ x. Counted x s.messages_dropped s.gone) e v.counted

receive_step-Sound : {s t : Run} → ReceiveStep s t → Sound s → Sound t
receive_step-Sound {s} (go_on e h) v =
    turned-Sound s s.connected reading (counted_at s Receiver.testing e v) v
receive_step-Sound {s} (leave e h) v = turned-Sound s s.connected Receiver.ended tt v
receive_step-Sound {s} (receive piece e pos le) v = on_received-Sound piece s e le v
receive_step-Sound {s} (retry e) v =
    turned-Sound s s.connected Receiver.testing (counted_at s reading e v) v
receive_step-Sound {s} (lose e) v =
    turned-Sound s false _
      (choice (λ (r : Receiver). Counted r s.messages_dropped s.gone) s.receiving reconnecting
        Receiver.ended (λ _. counted_at s reading e v) (λ _. tt))
      v
receive_step-Sound {s} (reconnect e) v = record {
  queued = v.queued;
  blocks = record {
    short = v.blocks.short;
    limit = v.blocks.limit;
    ready = v.blocks.ready;
    sizes = v.blocks.sizes;
  };
  flows = v.flows;
  counted = tt;
}
receive_step-Sound {s} (give_up e) v = halted-Sound s s.connected Receiver.ended tt v
receive_step-Sound {s} (throw_error e) v = halted-Sound s false Receiver.ended tt v

process_step-Sound : {s t : Run} → ProcessStep s t → Sound s → Sound t
process_step-Sound {s} (go_on e h) v = moved-Sound s waiting (ap pending_of e) v
process_step-Sound {s} (leave e h) v = moved-Sound s Processor.ended (ap pending_of e) v
process_step-Sound {s} (wake e h h') v = moved-Sound s Processor.ended (ap pending_of e) v
process_step-Sound {s} (take_front piece queue e h) v = on_taken-Sound piece queue s e h v
process_step-Sound {s} (deliver m ms e h) v =
    let b : Blocks s.chunker (m ∷ ms) s.delivered =
      subst (λ x. Blocks s.chunker (pending_of x) s.delivered) e v.blocks in
    let f : Flows true s.chunker.rtcm_buffer (m ∷ ms) s.delivered (taken_bytes s.gone) =
      subst (λ x. Flows true s.chunker.rtcm_buffer (pending_of x) s.delivered (taken_bytes s.gone))
        e
        (subst
          (λ x.
            Flows x s.chunker.rtcm_buffer (pending_of s.processor) s.delivered (taken_bytes s.gone))
          h v.flows) in
    record {
      queued = v.queued;
      blocks = record {
        short = b.short;
        limit = b.limit;
        ready = (b.ready).1;
        sizes = AllOf-append chunk_size s.delivered (m ∷ []) b.sizes ((b.ready).0, tt);
      };
      flows =
          subst (λ x. Flows x s.chunker.rtcm_buffer ms (s.delivered ++ m ∷ []) (taken_bytes s.gone))
            (sym h) (delivered-Flows s.chunker.rtcm_buffer m ms s.delivered (taken_bytes s.gone) f);
      counted = v.counted;
    }
process_step-Sound {s} (break_off m ms e h) v =
    let f =
      stopped-Flows s.receiving s.chunker.rtcm_buffer (pending_of s.processor) s.delivered _
        v.flows in
    broken_off-Sound s s.receiving Processor.testing refl
      (subst (λ b. Flows b s.chunker.rtcm_buffer [] s.delivered (taken_bytes s.gone)) (sym h) f) v
process_step-Sound {s} (finish e) v = moved-Sound s Processor.testing (ap pending_of e) v
process_step-Sound {s} (throw_error m ms e h) v =
    broken_off-Sound s false Processor.ended refl
      (stopped-Flows s.receiving s.chunker.rtcm_buffer (pending_of s.processor) s.delivered _
        v.flows)
      v

Step-Sound : {s t : Run} → Step s t → Sound s → Sound t
Step-Sound (receive_thread h) v = receive_step-Sound h v
Step-Sound (process_thread h) v = process_step-Sound h v
Step-Sound {s} stop_receiving v = halted-Sound s s.connected s.receiver v.counted v

abbrev nothing : Bytes
nothing = []

nothing_written : (opened : Bool) → nothing ≡ (if opened then nothing else nothing)
nothing_written true = refl
nothing_written false = refl

started-Sound :
    (opened : Bool) (pending : Bytes) → length pending ≤ piece_size → Sound (started opened pending)
unfolding flatten
started-Sound opened [] le = record {
  queued = record {
    order = refl;
    bounded = omega arith;
    small = tt;
    file = nothing_written opened;
  };
  blocks = record { short = omega arith; limit = refl; ready = tt; sizes = tt };
  flows = refl;
  counted = refl;
}
started-Sound opened (b ∷ pending) le = record {
  queued = record {
    order = refl;
    bounded = omega arith;
    small = (le, tt);
    file = nothing_written opened;
  };
  blocks = record { short = omega arith; limit = refl; ready = tt; sizes = tt };
  flows = refl;
  counted = refl;
}

-- However the two threads take turns after `StartReceiving`, with at most 65536 bytes left over from the
-- response: the pieces received leave the queue in their order, each taken by the processing thread or
-- dropped, the queue has at most 1024 of them, an open file has the bytes of the pieces taken, in
-- order, and the drops are counted until the receiving thread ends. The messages handed to the
-- callbacks are blocks of 1024 bytes, and while the client receives, the bytes of the messages handed
-- over, of those that wait to be and of the buffer, which is shorter than a block, are those taken;
-- after that the bytes handed over are a first part of them.
pub reached-Sound :
    (opened : Bool) (pending : Bytes) (s : Run)
    → length pending ≤ piece_size
    → Reach (started opened pending) s
    → Sound s
reached-Sound opened pending s le here = started-Sound opened pending le
reached-Sound opened pending s le (then_step before step) =
    Step-Sound step (reached-Sound opened pending _ le before)
