-- ===== src/Ntrip/Lost.antt =====
-- src/ntrip/ins401_ntrip_client.cpp: what comes after a lost connection.
use mathlib.Core.Path.{subst}
use asterx_driver.Base.{◌≡◌, refl, ◌∙◌}
use asterx_driver.Ntrip.Threads.{
  Receiver, reading, reconnecting, Run, on_taken, ReceiveStep, ProcessStep, go_on, leave, receive,
  retry, lose, reconnect, give_up, throw_error, wake, take_front, deliver, break_off, finish, Step,
  receive_thread, process_thread, stop_receiving, Reach, here, then_step,
}

-- The receiving thread receives nothing more.
abbrev pub IsOver : Receiver → Type 0
IsOver Receiver.testing = ⊥
IsOver reading = ⊥
IsOver reconnecting = Unit
IsOver Receiver.ended = Unit

abbrev Idle : Run → Run → Type 0
Idle s t = IsOver t.receiver × (t.arrived ≡ s.arrived)

not_over :
    {A : Type 0} (s : Run) (r : Receiver) → s.receiver ≡ r → (IsOver r → ⊥) → IsOver s.receiver → A
not_over s r e h o = absurd (h (subst IsOver e o))

receive_step-Idle : {s t : Run} → ReceiveStep s t → IsOver s.receiver → Idle s t
receive_step-Idle {s} (go_on e h) o = not_over s Receiver.testing e (λ x. x) o
receive_step-Idle (leave e h) o = (tt, refl)
receive_step-Idle {s} (receive piece e pos le) o = not_over s reading e (λ x. x) o
receive_step-Idle {s} (retry e) o = not_over s reading e (λ x. x) o
receive_step-Idle {s} (lose e) o = not_over s reading e (λ x. x) o
receive_step-Idle (reconnect e) o = (tt, refl)
receive_step-Idle (give_up e) o = (tt, refl)
receive_step-Idle (throw_error e) o = (tt, refl)

process_step-Idle : {s t : Run} → ProcessStep s t → IsOver s.receiver → Idle s t
unfolding on_taken
process_step-Idle (go_on e h) o = (o, refl)
process_step-Idle (leave e h) o = (o, refl)
process_step-Idle (wake e h h') o = (o, refl)
process_step-Idle (take_front piece queue e h) o = (o, refl)
process_step-Idle (deliver m ms e h) o = (o, refl)
process_step-Idle (break_off m ms e h) o = (o, refl)
process_step-Idle (finish e) o = (o, refl)
process_step-Idle (throw_error m ms e h) o = (o, refl)

Step-Idle : {s t : Run} → Step s t → IsOver s.receiver → Idle s t
Step-Idle (receive_thread h) o = receive_step-Idle h o
Step-Idle (process_thread h) o = process_step-Idle h o
Step-Idle stop_receiving o = (o, refl)

Reach-Idle : {s t : Run} → Reach s t → IsOver s.receiver → Idle s t
Reach-Idle here o = (o, refl)
Reach-Idle (then_step before step) o =
    let (o', e) = Reach-Idle before o in let (o'', e') = Step-Idle step o' in (o'', e' ∙ e)

-- Once the receiving thread reconnects or has ended, nothing more is put into the queue in that run of
-- the threads, also after a reconnection that succeeded.
pub lost_arrived : (s t : Run) → IsOver s.receiver → Reach s t → t.arrived ≡ s.arrived
lost_arrived s t o reach = (Reach-Idle reach o).1
