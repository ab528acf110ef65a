-- ===== src/Ntrip/Retries.antt =====
-- src/ntrip/ins401_ntrip_client.cpp: the retries of `SendToINS401`.
use mathlib.Core.List.{append_assoc, append-nil}
use mathlib.Core.Path.{subst}
use asterx_driver.Base.{
  ℕ, zero, suc, ◌+◌, ◌<◌, Bool, true, false, ◌&&◌, List, [], ◌∷◌, ◌++◌, Bytes, if◌then◌else◌, ◌≡◌,
  refl, sym, ap, ◌∙◌, arith,
}
use asterx_driver.Ntrip.Callback.{Device, Callback, tick, send_retries}

-- `k` sends of a packet that failed.
abbrev pub failures : ℕ → Bytes → List (Bytes × Bool)
failures zero packet = []
failures (suc k) packet = (packet, false) ∷ failures k packet

-- Those calls of `Send`, from a given one on, return no byte.
abbrev pub Refuses : Device → Bytes → ℕ → ℕ → Type 0
Refuses device packet call zero = Unit
Refuses device packet call (suc k) =
    (device.send call packet ≡ false) × Refuses device packet (call + 1) k

-- The counters are those of `s`, and so are the attempts, with `tries` after them.
abbrev pub Adds : List (Bytes × Bool) → Callback → Callback → Type 0
Adds tries s t =
    (t.attempts ≡ s.attempts ++ tries)
    × (t.packets_sent ≡ s.packets_sent)
    × (t.packets_failed ≡ s.packets_failed)

-- The first call that was accepted came after less than `left` others, or none was.
abbrev pub Tried : Device → ℕ → Bytes → Callback → Bool × Callback → Type 0
Tried device left packet s (true, t) =
    (k : ℕ) × (k < left)
    × Refuses device packet s.calls k
    × (device.send (s.calls + k) packet ≡ true)
    × Adds (failures k packet ++ (packet, true) ∷ []) s t
Tried device left packet s (false, t) =
    Refuses device packet s.calls left × Adds (failures left packet) s t

more-Adds :
    (packet : Bytes) (tries : List (Bytes × Bool)) (s s' t : Callback)
    → Adds ((packet, false) ∷ []) s s'
    → Adds tries s' t
    → Adds ((packet, false) ∷ tries) s t
more-Adds packet tries s s' t (e, sent, failed) (e', sent', failed') = (
  e' ∙ ap (λ x. x ++ tries) e ∙ append_assoc s.attempts ((packet, false) ∷ []) tries,
  sent' ∙ sent,
  failed' ∙ failed,
)

module _ (device : Device) (packet : Bytes) where
  abbrev noted : Bool → Callback → Callback
  noted answer s = tick (record s { attempts = s.attempts ++ (packet, answer) ∷ [] })

  more-Tried :
      (left : ℕ) (s : Callback) (r : Bool × Callback)
      → device.send s.calls packet ≡ false
      → Tried device left packet (noted false s) r
      → Tried device (suc left) packet s r
  more-Tried left s (true, t) e (k, lt, no_byte, taken, adds) = (
    suc k,
    omega arith,
    (e, no_byte),
    (let e' : s.calls + 1 + k ≡ s.calls + suc k = omega arith in
        subst (λ n. device.send n packet ≡ true) e' taken),
    more-Adds packet (failures k packet ++ (packet, true) ∷ []) s (noted false s) t
        (refl, refl, refl) adds,
  )
  more-Tried left s (false, t) e (no_byte, adds) = (
    (e, no_byte),
    more-Adds packet (failures left packet) s (noted false s) t (refl, refl, refl) adds,
  )

  one_try-Tried :
      (left : ℕ) (answer has_socket : Bool) (s : Callback) (rest : Callback → Bool × Callback)
      → device.send s.calls packet ≡ answer
      → has_socket ≡ true
      → Tried device left packet (noted false s) (rest (noted false s))
      → Tried device (suc left) packet s (
          if has_socket && answer
          then (true, if has_socket then noted answer s else s)
          else rest (if has_socket then noted answer s else s))
  one_try-Tried left answer false s rest e has h = absurd (cc)
  one_try-Tried left true true s rest e has h =
      let e' : s.calls ≡ s.calls + 0 = omega arith in
      (0, omega arith, tt, subst (λ n. device.send n packet ≡ true) e' e, (refl, refl, refl))
  one_try-Tried left false true s rest e has h = more-Tried left s (rest (noted false s)) e h

  pub send_retries-Tried :
      (left : ℕ) (s : Callback)
      → s.has_socket ≡ true
      → Tried device left packet s (send_retries device left packet s)
  unfolding send_retries
  send_retries-Tried zero s has = (tt, (sym (append-nil s.attempts), refl, refl))
  send_retries-Tried (suc left) s has =
      one_try-Tried left (device.send s.calls packet) s.has_socket s
        (send_retries device left packet) refl has (send_retries-Tried left (noted false s) has)
