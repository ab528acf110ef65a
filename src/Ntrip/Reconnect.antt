-- ===== src/Ntrip/Reconnect.antt =====
-- src/ntrip/ins401_ntrip_client.cpp: `HandleReconnect`, with the default options.
use native.Mathlib.Nat.{two-pow-succ}
use asterx_driver.Base.{
  ℕ, zero, suc, ◌+◌, ◌-◌, ◌*◌, ◌≤◌, ◌^◌, min, Bool, List, [], ◌∷◌, ltb, ltb→lt, ltb→ge, length,
  choice, if◌then◌else◌, ◌≡◌, refl, sym, ap, ◌∙◌, arith,
}

-- How `Connect` ends: it may throw when the correction data is required.
pub data Attempt : Type 0 where
  succeeded refused threw : Attempt

-- What the n-th reading of `receiving_` gives, and how the n-th `Connect` ends.
pub record World : Type 0 where
  pub receiving : ℕ → Bool
  pub connect : ℕ → Attempt

pub data Outcome : Type 0 where
  reconnected given_up thrown : Outcome

-- The seconds slept before each attempt, the newest first, and the number of `reconnect_count` added.
pub record Result : Type 0 where
  pub outcome : Outcome
  pub waits : List ℕ
  pub reconnect_count : ℕ

abbrev pub max_reconnect_attempts : ℕ
max_reconnect_attempts = 10

abbrev pub reconnect_interval : ℕ
reconnect_interval = 5

-- The interval after `attempts` attempts.
abbrev pub next_interval : ℕ → ℕ → ℕ
next_interval attempts current = if ltb 3 attempts then min (current * 2) 60 else current

-- A reading and an attempt were made, after a sleep.
abbrev slept : ℕ → Result → Result
slept current r = record r { waits = current ∷ r.waits; reconnect_count = suc r.reconnect_count }

abbrev stop_with : Outcome → Result
stop_with outcome = record { outcome = outcome; waits = []; reconnect_count = 0 }

abbrev after_connect : Attempt → Result → Result
after_connect succeeded rest = stop_with reconnected
after_connect refused rest = rest
after_connect threw rest = stop_with thrown

module _ (world : World) where
  -- `left` attempts are left after `attempts`, `receiving_` was read `n` times.
  unfoldable pub reconnect_loop : ℕ → ℕ → ℕ → ℕ → Result
  reconnect_loop zero attempts current n = stop_with given_up
  reconnect_loop (suc left) attempts current n =
      let rest =
        reconnect_loop left (suc attempts) (next_interval (suc attempts) current) (n + 2) in
      if world.receiving n
      then slept current (
          if world.receiving (n + 1)
          then after_connect (world.connect (suc attempts)) rest
          else stop_with given_up)
      else stop_with given_up

  abbrev pub handle_reconnect : Result
  handle_reconnect = reconnect_loop max_reconnect_attempts 0 reconnect_interval 0

-- The i-th wait, from 1 on: five seconds, doubled from the fifth on, and at most a minute.
abbrev pub backoff : ℕ → ℕ
backoff i = min (5 * 2 ^ (i - 4)) 60

abbrev pub Follows : ℕ → List ℕ → Type 0
Follows i [] = Unit
Follows i (wait ∷ waits) = (wait ≡ backoff i) × Follows (suc i) waits

pub record Kept (i left : ℕ) (r : Result) : Type 0 where
  pub waits_follow : Follows i r.waits
  pub bounded : length r.waits ≤ left
  pub counted : r.reconnect_count ≡ length r.waits

stop_with-Kept : (i left : ℕ) (outcome : Outcome) → Kept i left (stop_with outcome)
stop_with-Kept i left outcome = record { waits_follow = tt; bounded = omega arith; counted = refl }

slept-Kept :
    (i left current : ℕ) (r : Result)
    → current ≡ backoff i
    → Kept (suc i) left r
    → Kept i (suc left) (slept current r)
slept-Kept i left current r e k =
    let b = k.bounded in
    let c = k.counted in
    record { waits_follow = (e, k.waits_follow); bounded = omega arith; counted = omega arith }

after_connect-Kept :
    (i left : ℕ) (a : Attempt) (r : Result) → Kept i left r → Kept i left (after_connect a r)
after_connect-Kept i left succeeded r k = stop_with-Kept i left reconnected
after_connect-Kept i left refused r k = k
after_connect-Kept i left threw r k = stop_with-Kept i left thrown

next_backoff :
    (attempts : ℕ)
    → next_interval (suc attempts) (backoff (suc attempts)) ≡ backoff (suc (suc attempts))
next_backoff attempts =
    choice (λ next. next ≡ backoff (suc (suc attempts))) (ltb 3 (suc attempts)) _ _
      (λ h.
        let late = ltb→lt 3 (suc attempts) h in
        let e : suc (suc attempts) - 4 ≡ suc (suc attempts - 4) = omega arith in
        let double : 2 ^ (suc (suc attempts) - 4)
            ≡ 2 ^ (suc attempts - 4) + 2 ^ (suc attempts - 4) =
          ap (λ k. 2 ^ k) e ∙ two-pow-succ (suc attempts - 4) in
        omega (arith, double))
      (λ h.
        let early = ltb→ge 3 (suc attempts) h in
        let e : suc (suc attempts) - 4 ≡ suc attempts - 4 = omega arith in
        ap (λ k. min (5 * 2 ^ k) 60) (sym e))

module _ (world : World) where
  loop-Kept :
      (left attempts current n : ℕ)
      → current ≡ backoff (suc attempts)
      → Kept (suc attempts) left (reconnect_loop world left attempts current n)
  unfolding reconnect_loop
  loop-Kept zero attempts current n e = stop_with-Kept (suc attempts) 0 given_up
  loop-Kept (suc left) attempts current n e =
      let i = suc attempts in
      let rest =
        loop-Kept left i (next_interval i current) (n + 2)
          (ap (next_interval i) e ∙ next_backoff attempts) in
      choice (Kept i (suc left)) (world.receiving n) _ _
        (λ _. slept-Kept i left current _ e (
          choice (Kept (suc i) left) (world.receiving (n + 1)) _ _
            (λ _. after_connect-Kept (suc i) left (world.connect i) _ rest)
            (λ _. stop_with-Kept (suc i) left given_up)))
        (λ _. stop_with-Kept i (suc left) given_up)

  -- There are at most ten attempts, all counted, and the sleep before the i-th of them is 5 seconds up
  -- to the fourth, from where it doubles, up to a minute.
  pub handle_reconnect-Kept : Kept 1 10 (handle_reconnect world)
  handle_reconnect-Kept = loop-Kept 10 0 5 0 refl
