-- ===== src/Ntrip/Forwarding.antt =====
-- src/ntrip/ins401_ntrip_client.cpp: what `SendToINS401` counts and returns.
use mathlib.Core.List.{append-nil}
use asterx_driver.Base.{
  ℕ, ◌+◌, ◌%◌, ◌^◌, ◌≤◌, ◌<◌, Bool, true, false, ◌&&◌, List, [], ◌∷◌, ◌++◌, Option, none, some,
  Bytes, ◌==◌, choice, Bool-cases, &&_iff, ◌⊎◌, inl, inr, ◌≡◌, refl, sym, ap, ◌∙◌, arith,
}
use asterx_driver.Ntrip.Callback.{
  Device, Callback, tick, count_sent, count_failed, cleanup, construct_socket, initialize, reset,
  send_retries, after_retries, after_build, send_to_ins401,
}
use asterx_driver.Ntrip.Retries.{failures, Refuses, Adds, Tried, send_retries-Tried}

-- The counters and the attempts stay.
pub record Quiet (s t : Callback) : Type 0 where
  pub sent : t.packets_sent ≡ s.packets_sent
  pub failed : t.packets_failed ≡ s.packets_failed
  pub attempts : t.attempts ≡ s.attempts

Quiet-refl : (s : Callback) → Quiet s s
Quiet-refl s = record { sent = refl; failed = refl; attempts = refl }

-- What is counted of a packet, and which attempts there were.
abbrev pub Sends : List (Bytes × Bool) → Callback → Callback → Type 0
Sends tries s t =
    (t.attempts ≡ s.attempts ++ tries)
    × (t.packets_sent ≡ (s.packets_sent + 1) % 2 ^ 64)
    × (t.packets_failed ≡ s.packets_failed)

abbrev pub Misses : List (Bytes × Bool) → Callback → Callback → Type 0
Misses tries s t =
    (t.attempts ≡ s.attempts ++ tries)
    × (t.packets_sent ≡ s.packets_sent)
    × (t.packets_failed ≡ (s.packets_failed + 1) % 2 ^ 64)

-- A construction of the socket, at the first call or at the second, that failed or made an invalid one.
pub record WithoutSocket (device : Device) (s : Callback) : Type 0 where
  pub call : ℕ
  pub from : s.calls ≤ call
  pub to : call ≤ s.calls + 1
  pub unmade : (device.construct call ≡ false) ⊎ (device.is_valid (call + 1) ≡ false)

-- The packet for a payload, built over the socket that is ready.
abbrev pub built : Device → Bytes → Callback → Option Bytes
built device payload s =
    let call = (initialize device s).calls in
    device.build_packet call (device.is_valid call) payload

-- How a call of `SendToINS401` ends.
pub data Forwards (device : Device) (payload : Bytes) (s : Callback)
    : Bool × Callback → Type 0 where
  unready :
      (t : Callback) → WithoutSocket device s → Misses [] s t → Forwards device payload s (false, t)
  unbuilt :
      (t : Callback)
      → built device payload s ≡ none
      → Misses [] s t
      → Forwards device payload s (false, t)
  refused :
      (t : Callback) (packet : Bytes)
      → built device payload s ≡ some packet
      → Refuses device packet ((initialize device s).calls + 1) 3
      → Misses (failures 3 packet) s t
      → Forwards device payload s (false, t)
  accepted :
      (t : Callback) (packet : Bytes) (k : ℕ)
      → built device payload s ≡ some packet
      → k < 3
      → Refuses device packet ((initialize device s).calls + 1) k
      → device.send ((initialize device s).calls + 1 + k) packet ≡ true
      → Sends (failures k packet ++ (packet, true) ∷ []) s t
      → Forwards device payload s (true, t)

add-Sends :
    (tries : List (Bytes × Bool)) (s s' t : Callback)
    → Quiet s s'
    → Adds tries s' t
    → Sends tries s (count_sent t)
add-Sends tries s s' t q (e, sent, failed) = (
  e ∙ ap (λ x. x ++ tries) q.attempts,
  ap (λ n. (n + 1) % 2 ^ 64) (sent ∙ q.sent),
  failed ∙ q.failed,
)

add-Misses :
    (tries : List (Bytes × Bool)) (s s' t u : Callback)
    → Quiet s s'
    → Adds tries s' t
    → Quiet (count_failed t) u
    → Misses tries s u
add-Misses tries s s' t u q (e, sent, failed) q' = (
  q'.attempts ∙ e ∙ ap (λ x. x ++ tries) q.attempts,
  q'.sent ∙ sent ∙ q.sent,
  q'.failed ∙ ap (λ n. (n + 1) % 2 ^ 64) (failed ∙ q.failed),
)

no-Adds : (s : Callback) → Adds [] s s
no-Adds s = (sym (append-nil s.attempts), refl, refl)

module _ (device : Device) where
  construct_socket-Quiet : (s : Callback) → Quiet s (construct_socket device s)
  construct_socket-Quiet s =
      choice (Quiet s) (device.construct s.calls) _ _
        (λ _. record { sent = refl; failed = refl; attempts = refl })
        (λ _. record { sent = refl; failed = refl; attempts = refl })

  -- Whether the socket is ready, and what is known then.
  abbrev Readies : Callback → Callback → Type 0
  Readies s t =
      (t.socket_initialized ≡ true × t.has_socket ≡ true)
      ⊎ (t.socket_initialized ≡ false × WithoutSocket device s)

  construct_socket-Readies :
      (s s' : Callback)
      → s.calls ≤ s'.calls
      → s'.calls ≤ s.calls + 1
      → Readies s (construct_socket device s')
  construct_socket-Readies s s' from to =
      choice (Readies s) (device.construct s'.calls) _ _
        (λ _. elim (Bool-cases (device.is_valid (s'.calls + 1))) [
          | inl h ↦ inl (h, refl)
          | inr h ↦ inr (h, record { call = s'.calls; from = from; to = to; unmade = inr h })
        ])
        (λ h. inr (refl, record { call = s'.calls; from = from; to = to; unmade = inl h }))

  initialize-Readies : (s : Callback) → Readies s (initialize device s)
  unfolding initialize
  initialize-Readies s =
      choice (Readies s) (s.socket_initialized && s.has_socket) _ _
        (λ h.
          choice (Readies s) (device.is_valid s.calls) _ _
            (λ _. inl ((&&_iff s.socket_initialized s.has_socket).0 h))
            (λ _. construct_socket-Readies s (tick s) (omega arith) (omega arith)))
        (λ _. construct_socket-Readies s s (omega arith) (omega arith))

  with_socket : (s t : Callback) → t.socket_initialized ≡ true → Readies s t → t.has_socket ≡ true
  with_socket s t up (inl (up', has)) = has
  with_socket s t up (inr (down, without)) = absurd (cc)

  without_socket :
      (s t : Callback) → t.socket_initialized ≡ false → Readies s t → WithoutSocket device s
  without_socket s t down (inl (up, has)) = absurd (cc)
  without_socket s t down (inr (down', without)) = without

  initialize-Quiet : (s : Callback) → Quiet s (initialize device s)
  unfolding initialize
  initialize-Quiet s =
      choice (Quiet s) (s.socket_initialized && s.has_socket) _ _
        (λ _.
          choice (Quiet s) (device.is_valid s.calls) _ _
            (λ _. record { sent = refl; failed = refl; attempts = refl })
            (λ _.
              let q = construct_socket-Quiet (tick s) in
              record { sent = q.sent; failed = q.failed; attempts = q.attempts }))
        (λ _. construct_socket-Quiet s)

  reset-Quiet : (s : Callback) → Quiet s (reset device s)
  unfolding reset
  reset-Quiet s =
      let q = initialize-Quiet (cleanup s) in
      record { sent = q.sent; failed = q.failed; attempts = q.attempts }

  module _ (payload : Bytes) (s : Callback) where
    after_retries-Forwards :
        (packet : Bytes) (r : Bool × Callback)
        → built device payload s ≡ some packet
        → Tried device 3 packet (tick (initialize device s)) r
        → Forwards device payload s (after_retries device r)
    after_retries-Forwards packet (true, t) e (k, lt, no_bytes, taken, adds) =
        let s' = tick (initialize device s) in
        let q = initialize-Quiet s in
        accepted (count_sent t) packet k e lt no_bytes taken (
          add-Sends (failures k packet ++ (packet, true) ∷ []) s s' t
            (record { sent = q.sent; failed = q.failed; attempts = q.attempts }) adds)
    after_retries-Forwards packet (false, t) e (no_bytes, adds) =
        let s' = tick (initialize device s) in
        let q = initialize-Quiet s in
        let misses : (u : Callback) → Quiet (count_failed t) u → Misses (failures 3 packet) s u =
          λ u.
            add-Misses (failures 3 packet) s s' t u
              (record { sent = q.sent; failed = q.failed; attempts = q.attempts }) adds in
        choice (Forwards device payload s) ((count_failed t).packets_failed % 10 == 0) _ _
          (λ _.
            let u = reset device (count_failed t) in
            refused u packet e no_bytes (misses u (reset-Quiet (count_failed t))))
          (λ _. let u = count_failed t in refused u packet e no_bytes (misses u (Quiet-refl u)))

    after_build-Forwards :
        (packet : Option Bytes)
        → built device payload s ≡ packet
        → (initialize device s).has_socket ≡ true
        → Forwards device payload s (after_build device packet (tick (initialize device s)))
    after_build-Forwards none e has =
        let s' = tick (initialize device s) in
        let q = initialize-Quiet s in
        unbuilt (count_failed s') e (
          add-Misses [] s s' s' (count_failed s')
            (record { sent = q.sent; failed = q.failed; attempts = q.attempts }) (no-Adds s')
            (Quiet-refl (count_failed s')))
    after_build-Forwards (some packet) e has =
        let s' = tick (initialize device s) in
        after_retries-Forwards packet (send_retries device 3 packet s') e
          (send_retries-Tried device packet 3 s' has)

    -- `SendToINS401` builds the packet for its message once the socket is ready, and hands this packet to
    -- `Send` until it is accepted, at most three times. It returns true and counts the packet as sent
    -- when one of these calls was accepted, which is the last one. It returns false and counts it as
    -- failed when all three were refused, when no packet was built, or when a construction of the socket
    -- threw or made an invalid one; in these two cases `Send` is not called.
    pub send_to_ins401-Forwards : Forwards device payload s (send_to_ins401 device payload s)
    unfolding send_to_ins401
    send_to_ins401-Forwards =
        let ready = initialize device s in
        let q = initialize-Quiet s in
        choice (Forwards device payload s) ready.socket_initialized _ _
          (λ up.
            let has = with_socket s ready up (initialize-Readies s) in
            let e =
              ap (λ b. device.build_packet ready.calls (b && device.is_valid ready.calls) payload)
                (sym has) in
            after_build-Forwards _ e has)
          (λ down.
            unready (count_failed ready) (without_socket s ready down (initialize-Readies s)) (
              add-Misses [] s ready ready (count_failed ready) q (no-Adds ready)
                (Quiet-refl (count_failed ready))))
