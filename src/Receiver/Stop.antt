-- ===== src/Receiver/Stop.antt =====
-- src/receiver_config.cpp: settings that are refused, and `stop_streams`.
use asterx_driver.Base.{ℕ, zero, suc, ◌+◌, [], ◌∷◌, ◌++◌, map, ◌≡◌, refl, sym, ap, ◌∙◌}
use mathlib.Core.List.{append-nil}
use asterx_driver.Receiver.Settings.{Numbers, ReceiverSettings, Result, ConfigError, ok, error}
use asterx_driver.Receiver.Commands.{validate_receiver_settings}
use asterx_driver.Receiver.Link.{Link, Wire, M, returned, thrown, config, after, check, wire_of}
use asterx_driver.Receiver.Session.{
  line, clear_command, send_command, stop_from, stop_streams, apply,
}
use asterx_driver.Receiver.Script.{clear_script, sent_append}
use asterx_driver.Receiver.Sending.{send_command-sent, handle_all_returned}
use asterx_driver.Receiver.Valid.{ValidSettings, validate_receiver_settings_iff}

module _ {S : Type 0} (link : Link S) where
  module _ {D : Type 0} (num : Numbers D) (timeout : ℕ) where
    failed-check :
        {A : Type 0} (r : Result (Unit {0})) (k : Unit {0} → M S A) (w : Wire S)
        → ¬ (r ≡ ok tt)
        → (e : ConfigError) × (after (check r w) k ≡ thrown (config e) w)
    failed-check (ok a) k w h = absurd (h refl)
    failed-check (error e) k w h = (e, refl)

    -- With settings that are not valid, `apply` throws a `ConfigError` before it sends anything.
    pub apply_invalid :
        (settings : ReceiverSettings D) (w : Wire S)
        → ¬ ValidSettings num settings
        → (e : ConfigError) × (apply link timeout num settings w ≡ thrown (config e) w)
    unfolding apply
    apply_invalid settings w invalid =
        failed-check (validate_receiver_settings num settings) _ w
          λ valid. invalid ((validate_receiver_settings_iff num settings).0 valid)

  stop_from_sent :
      (left stream_id : ℕ) (w : Wire S)
      → (w' : Wire S) × (stop_from link left stream_id w ≡ returned tt w')
        × (w'.sent ≡ w.sent ++ map line (clear_script left stream_id))
  unfolding stop_from
  stop_from_sent zero stream_id w = (w, refl, sym (append-nil w.sent))
  stop_from_sent (suc left) stream_id w =
      let e = send_command link 2000 (clear_command stream_id) w in
      let next = stop_from_sent left (stream_id + 1) (wire_of e) in
      (
        next.0,
        ap (λ m. after m (λ _. stop_from link left (stream_id + 1))) (handle_all_returned e)
            ∙ next.1,
        sent_append w.sent (clear_command stream_id ∷ []) (clear_script left (stream_id + 1))
            (send_command-sent link 2000 (clear_command stream_id) w) (next.2),
      )

  -- Whatever the connection and the receiver do, `stop_streams` returns, and it has handed over the
  -- command that clears a stream for each of the streams 1 to 10 in order.
  pub stop_streams_sent :
      (w : Wire S)
      → (w' : Wire S) × (stop_streams link w ≡ returned tt w')
        × (w'.sent ≡ w.sent ++ map line (clear_script 10 1))
  unfolding stop_streams
  stop_streams_sent w = stop_from_sent 10 1 w
