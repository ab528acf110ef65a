-- ===== src/Main/Control.antt =====
-- src/main.cpp: what the control connection puts out.
use mathlib.Core.List.{append_assoc, append-nil}
use mathlib.Core.Path.{subst}
use asterx_driver.Base.{
  ℕ, zero, suc, ◌+◌, List, [], ◌∷◌, ◌++◌, Bytes, text, ◌≡◌, refl, sym, ap, ◌∙◌,
}
use asterx_driver.Receiver.Settings.{Result, ok, error, Numbers}
use asterx_driver.Receiver.Link.{
  Link, Answer, answered, failed, Puts, Wire, M, End, returned, thrown, ◌>>◌, after, check,
  handle_all, wire_of, settle, write_text, read_reply, conn_of, InStep,
}
use asterx_driver.Receiver.Session.{
  line, accepted, clear_command, login_command, send_command, login, apply, stop_from, stop_streams,
}
use asterx_driver.Receiver.Script.{SendsFrom, Sends, >>=-Sends}
use asterx_driver.Receiver.Apply.{script, apply-SendsFrom}
use asterx_driver.Receiver.Login.{login-SendsFrom}
use asterx_driver.AppConfig.{AppConfig}

-- The login and then the script.
abbrev pub control_script : {D : Type 0} → Numbers D → AppConfig D → List Bytes
control_script num cfg = login_command cfg.user cfg.password ∷ script num cfg.receiver

module _ {S : Type 0} (link : Link S) where
  -- More may have been put out.
  abbrev Grows : Bytes → Wire S → Type 0
  Grows before w = (more : Bytes) × (link.output w.conn ≡ before ++ more)

  Grows-trans :
      (before : Bytes) (w w' : Wire S)
      → Grows before w
      → Grows (link.output w.conn) w'
      → Grows before w'
  Grows-trans before w w' (more, e) (more', e') =
      (more ++ more', e' ∙ ap (λ x. x ++ more') e ∙ append_assoc before more more')

  same-Grows :
      (w w' : Wire S) → link.output w'.conn ≡ link.output w.conn → Grows (link.output w.conn) w'
  same-Grows w w' e = ([], e ∙ sym (append-nil (link.output w.conn)))

  after-Grows :
      {A B : Type 0} (before : Bytes) (e : End S A) (k : A → M S B)
      → Grows before (wire_of e)
      → ((a : A) (w : Wire S) → Grows (link.output w.conn) (wire_of (k a w)))
      → Grows before (wire_of (after e k))
  after-Grows before (returned a w) k g h = Grows-trans before w (wire_of (k a w)) g (h a w)
  after-Grows before (thrown e w) k g h = g

  write-Grows :
      (before bytes : Bytes) (sent : List Bytes) (a : Answer S (Unit {0}))
      → Puts link.output before bytes a
      → Grows before (wire_of (settle sent a))
  write-Grows before bytes sent (answered u s) p = (bytes, p)
  write-Grows before bytes sent (failed s) (begun, rest, split, p) = (begun, p)

  settled_conn :
      (sent : List Bytes) (a : Answer S Bytes) → (wire_of (settle sent a)).conn ≡ conn_of a
  settled_conn sent (answered r s) = refl
  settled_conn sent (failed s) = refl

  read-Grows :
      (timeout : ℕ) (w : Wire S) → Grows (link.output w.conn) (wire_of (read_reply link timeout w))
  read-Grows timeout w =
      let a = link.read_until (text ">") timeout w.conn in
      same-Grows w (wire_of (read_reply link timeout w))
        (ap link.output (settled_conn w.sent a) ∙ link.read_until-output (text ">") timeout w.conn)

  check-Grows :
      {A : Type 0} (r : Result A) (w : Wire S)
      → Grows (link.output w.conn) (wire_of (check {S = S} r w))
  check-Grows (ok a) w = same-Grows w w refl
  check-Grows (error e) w = same-Grows w w refl

  send_command-Grows :
      (timeout : ℕ) (cmd : Bytes) (w : Wire S)
      → Grows (link.output w.conn) (wire_of (send_command link timeout cmd w))
  unfolding send_command
  send_command-Grows timeout cmd w =
      after-Grows (link.output w.conn) (write_text link (line cmd) w) _
        (write-Grows (link.output w.conn) (line cmd) _ (link.write_all (line cmd) w.conn)
          (link.write_all-Puts (line cmd) w.conn))
        λ _ w1.
          after-Grows (link.output w1.conn) (read_reply link timeout w1) _ (read-Grows timeout w1)
            λ reply w2. check-Grows (accepted reply) w2

  handled_wire : {A : Type 0} (e : End S A) → wire_of (handle_all e) ≡ wire_of e
  handled_wire (returned a w) = refl
  handled_wire (thrown e w) = refl

  stop_from-Grows :
      (left stream_id : ℕ) (w : Wire S)
      → Grows (link.output w.conn) (wire_of (stop_from link left stream_id w))
  unfolding stop_from
  stop_from-Grows zero stream_id w = same-Grows w w refl
  stop_from-Grows (suc left) stream_id w =
      let e = send_command link 2000 (clear_command stream_id) w in
      after-Grows (link.output w.conn) (handle_all e) _
        (subst (λ w'. Grows (link.output w.conn) w') (sym (handled_wire e))
          (send_command-Grows 2000 (clear_command stream_id) w))
        λ _ w'. stop_from-Grows left (stream_id + 1) w'

  pub stop_streams-Grows : (w : Wire S) → Grows (link.output w.conn) (wire_of (stop_streams link w))
  unfolding stop_streams
  stop_streams-Grows w = stop_from-Grows 10 1 w

  module _ {D : Type 0} (num : Numbers D) where
    pub configure-SendsFrom :
        (cfg : AppConfig D) (w : Wire S)
        → InStep link (link.output w.conn) w
        → SendsFrom link
            (link.output w.conn)
            w
            (control_script num cfg)
            ((login link 5000 cfg.user cfg.password >> apply link 3000 num cfg.receiver) w)
    unfolding Sends
    configure-SendsFrom cfg w i =
        let base = link.output w.conn in
        >>=-Sends link base (login_command cfg.user cfg.password ∷ []) (script num cfg.receiver)
          (login link 5000 cfg.user cfg.password) (λ _. apply link 3000 num cfg.receiver)
          (login-SendsFrom link base 5000 cfg.user cfg.password)
          (λ _. apply-SendsFrom link base 3000 num cfg.receiver) w i
