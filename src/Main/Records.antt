-- ===== src/Main/Records.antt =====
-- src/main.cpp: the session from the settings to the files.
use mathlib.Core.List.{append_assoc, append-nil, flatten}
use mathlib.Core.Path.{subst}
use asterx_driver.Base.{
  ℕ, zero, suc, false, List, [], ◌∷◌, ◌++◌, map, none, some, Bytes, choice, ◌≡◌, refl, sym, ap, ◌∙◌,
}
use asterx_driver.Receiver.Settings.{Numbers}
use asterx_driver.Receiver.Link as Link
use asterx_driver.Receiver.Link.{Wire, wire_of, InStep, tcp, config}
use asterx_driver.Receiver.Session.{line, stop_streams}
use asterx_driver.Receiver.Script.{SendsFrom}
use asterx_driver.AppConfig.{AppConfig}
use asterx_driver.Sbf.Wire.{Frame}
use asterx_driver.Sbf.Decoder.{Decodes}
use asterx_driver.Recorder as Recording
use asterx_driver.Recorder.{Config, Recorder, Outcome, ok, fault, create}
use asterx_driver.Recorder.Wrote.{Reliable, contents, wires}
use asterx_driver.Recorder.Session.{Created, create-Created}
use asterx_driver.Tcp.Sockets as Sockets
use asterx_driver.Tcp.Sockets.{Client, exhausted}
use asterx_driver.Tcp.{connect}
use asterx_driver.Tcp as Tcp
use asterx_driver.Tcp.Opening.{Opens, connect-Opens, close_kept}
use asterx_driver.Tcp.Connection.{tcp_link}
use asterx_driver.Main.Session.{
  Environment, Finish, exited, running, undefined, new_client, recorder_config, LoopEnd, stopped,
  broken, looping, faulty, ctrl_link, receive_loop, after_loop, after_create, after_data,
  after_configure, configure, after_ctrl, session, leave,
}
use asterx_driver.Main.Loop.{LoopDelivers, receive_loop-Delivers}
use asterx_driver.Main.Control.{control_script, configure-SendsFrom, stop_streams-Grows}

-- The bytes of a list of commands.
abbrev pub lines_of : List Bytes → Bytes
lines_of cmds = flatten (map line cmds)

abbrev pub Begins : Bytes → Bytes → Type 0
Begins all begun = (rest : Bytes) × (begun ++ rest ≡ all)

lines_of-append : (cs ds : List Bytes) → lines_of (cs ++ ds) ≡ lines_of cs ++ lines_of ds
unfolding flatten
lines_of-append [] ds = refl
lines_of-append (c ∷ cs) ds =
    ap (λ s. line c ++ s) (lines_of-append cs ds)
    ∙ sym (append_assoc (line c) (lines_of cs) (lines_of ds))

-- A first part of the lines of the first commands is one of the lines of all of them.
Begins-lines_of :
    (cmds begun rest : List Bytes) (sent : Bytes)
    → begun ++ rest ≡ cmds
    → Begins (lines_of begun) sent
    → Begins (lines_of cmds) sent
Begins-lines_of cmds begun rest sent split (more, e) = (
  more ++ lines_of rest,
  sym (append_assoc sent more (lines_of rest))
      ∙ ap (λ s. s ++ lines_of rest) e
      ∙ sym (lines_of-append begun rest)
      ∙ ap lines_of split,
)

-- With exit code 0 the files hold the wire bytes of the frames that the decoder reads from the bytes
-- received on the data connection, the newest file is closed, and the bytes sent on the control
-- connection begin with the login and the script. Any other code is 1, with nothing recorded, and the
-- bytes sent are a first part of those.
abbrev pub Records : {D : Type 0} → Numbers D → AppConfig D → Finish → Type 0
Records num cfg (exited zero w) =
    (r : Recorder) × (frames : List Frame) × (rest : Bytes) × (w.recorder ≡ some r)
    × Decodes w.data_client.received frames rest
    × (contents r.disk ≡ wires frames)
    × (r.is_open ≡ false)
    × Begins w.ctrl.sent (lines_of (control_script num cfg))
Records num cfg (exited (suc code) w) =
    (code ≡ 0) × (w.recorder ≡ none) × Begins (lines_of (control_script num cfg)) w.ctrl.sent
Records num cfg running = Unit
Records num cfg undefined = ⊥

close-disk : (r : Recorder) → (Recording.close r).disk ≡ r.disk
unfolding Recording.close
close-disk r = choice (λ (q : Recorder). q.disk ≡ r.disk) r.is_open _ _ (λ _. refl) (λ _. refl)

close-is_open : (r : Recorder) → (Recording.close r).is_open ≡ false
unfolding Recording.close
close-is_open r = choice (λ (q : Recorder). q.is_open ≡ false) r.is_open _ _ (λ _. refl) (λ e. e)

module _ {D : Type 0} (num : Numbers D) (cfg : AppConfig D) (env : Environment)
    (rel : Reliable env.os) where
  abbrev all_lines : Bytes
  all_lines = lines_of (control_script num cfg)

  -- An end with code 1 before the recorder is there.
  left-Records : (c d : Client) → Begins all_lines c.sent → Records num cfg (leave 1 c d none)
  left-Records c d (rest, e) = (refl, refl, (rest, ap (λ s. s ++ rest) ((close_kept c).0) ∙ e))

  after_loop-Records :
      (w : Wire Client) (d : Client) (r : Recorder) (e : LoopEnd)
      → w.conn.sent ≡ all_lines
      → d.received ≡ []
      → contents r.disk ≡ []
      → LoopDelivers d r 0 [] e
      → Records num cfg (after_loop env w e)
  unfolding tcp_link
  after_loop-Records w d r (stopped d' r') sent got empty v =
      let closed = Recording.close (Recording.close r') in
      let grown = stop_streams-Grows (ctrl_link env) w in
      let w' = wire_of (stop_streams (ctrl_link env) w) in
      let got' : (Tcp.close d').received ≡ v.bytes =
        (close_kept d').1 ∙ v.received ∙ ap (λ x. x ++ v.bytes) got in
      let disk : contents closed.disk ≡ wires v.frames =
        ap contents (close-disk (Recording.close r') ∙ close-disk r')
        ∙ v.written
        ∙ ap (λ x. x ++ wires v.frames) empty in
      (
        closed,
        v.frames,
        v.rest',
        refl,
        subst (λ x. Decodes x v.frames v.rest') (sym got') v.decodes,
        disk,
        close-is_open (Recording.close r'),
        (grown.0, ap (λ x. x ++ grown.0) (sym sent) ∙ sym (grown.1) ∙ sym ((close_kept w'.conn).0)),
      )
  after_loop-Records w d r (broken d' r') sent got empty v = absurd v
  after_loop-Records w d r looping sent got empty v = tt
  after_loop-Records w d r faulty sent got empty v = absurd v

  complete : (c : Client) → c.sent ≡ all_lines → Begins all_lines c.sent
  complete c e = ([], append-nil c.sent ∙ e)

  module _ (fuel : ℕ) where
    after_create-Records :
        (w : Wire Client) (d : Client) (o : Outcome (Unit {0}))
        → w.conn.sent ≡ all_lines
        → d.received ≡ []
        → Created o
        → Records num cfg (after_create env fuel w d o)
    after_create-Records w d (ok u r) sent got (live, empty) =
        after_loop-Records w d r (receive_loop env fuel 0 d r) sent got empty
          (receive_loop-Delivers env rel fuel 0 d r 0 [] live)
    after_create-Records w d (Recording.thrown e r) sent got made =
        left-Records w.conn d (complete w.conn sent)
    after_create-Records w d fault sent got made = absurd made

    after_data-Records :
        (w : Wire Client) (e : Sockets.End (Unit {0}))
        → w.conn.sent ≡ all_lines
        → Opens [] [] e
        → Records num cfg (after_data env fuel (recorder_config cfg) w e)
    after_data-Records w (Sockets.returned u d) sent (s, got) =
        after_create-Records w d (create env.os (recorder_config cfg)) sent got
          (create-Created env.os (recorder_config cfg))
    after_data-Records w (Sockets.thrown x d) sent o = left-Records w.conn d (complete w.conn sent)
    after_data-Records w exhausted sent o = absurd o

    after_configure-Records :
        (w : Wire Client) (e : Link.End Client (Unit {0}))
        → w.sent ≡ []
        → SendsFrom (ctrl_link env) [] w (control_script num cfg) e
        → Records num cfg (after_configure env fuel (recorder_config cfg) e)
    unfolding tcp_link
    after_configure-Records w (Link.returned u w') none_before (sent, i) =
        after_data-Records w' (connect env.data_net new_client)
          (i ∙ ap flatten (sent ∙ ap (λ s. s ++ map line (control_script num cfg)) none_before))
          (connect-Opens env.data_net new_client)
    after_configure-Records w (Link.thrown (config x) w') none_before
          (begun, rest, split, sent, i) =
        left-Records w'.conn new_client (
          Begins-lines_of (control_script num cfg) begun rest w'.conn.sent split (
            [],
            append-nil w'.conn.sent
                ∙ i
                ∙ ap flatten (sent ∙ ap (λ s. s ++ map line begun) none_before),
          ))
    after_configure-Records w (Link.thrown tcp w') none_before
          (begun, rest, split, sent, (first, more, part, i)) =
        left-Records w'.conn new_client (
          Begins-lines_of (control_script num cfg) begun rest w'.conn.sent split (
            more,
            ap (λ s. s ++ more) i
                ∙ part
                ∙ ap flatten (sent ∙ ap (λ s. s ++ map line begun) none_before),
          ))

    after_ctrl-Records :
        (e : Sockets.End (Unit {0}))
        → Opens [] [] e
        → Records num cfg (after_ctrl env fuel num cfg e)
    unfolding tcp_link flatten
    after_ctrl-Records (Sockets.returned u c) (sent, got) =
        let w : Wire Client = record { sent = []; conn = c } in
        after_configure-Records w (configure env fuel num cfg w) refl (
          subst
            (λ s.
              SendsFrom (ctrl_link env) s w (control_script num cfg) (configure env fuel num cfg w))
            sent (configure-SendsFrom (ctrl_link env) num cfg w (sym (append-nil c.sent))))
    after_ctrl-Records (Sockets.thrown x c) (sent, got) =
        left-Records c new_client (all_lines, ap (λ s. s ++ all_lines) sent)
    after_ctrl-Records exhausted o = absurd o

    -- On a system that grants every call: when the session of the program ends with code 0, the control
    -- connection has sent the login and the whole script of the settings and then something more, the
    -- files hold, in order and byte for byte, the frames that the decoder reads from all the bytes
    -- received on the data connection, and the newest file is closed. Otherwise it ends with code 1
    -- and without a recording, when the control connection has sent a first part of the login and the
    -- script, or it has not ended yet. It never has undefined behaviour.
    pub session-Records : Records num cfg (session env fuel num cfg)
    unfolding session
    session-Records =
        after_ctrl-Records (connect env.ctrl_net new_client) (connect-Opens env.ctrl_net new_client)
