-- ===== src/Receiver/Sending.antt =====
-- src/receiver_config.cpp: what one command sends, with any answer of the connection.
use mathlib.Core.List.{append_assoc, append-nil, flatten}
use asterx_driver.Base.{
  ℕ, zero, suc, ◌+◌, List, [], ◌∷◌, ◌++◌, map, Bytes, ◌≡◌, refl, sym, ap, ◌∙◌, text,
}
use asterx_driver.Receiver.Settings.{Result, ok, error}
use asterx_driver.Receiver.Link.{
  Answer, answered, failed, conn_of, Puts, Link, Wire, M, End, returned, thrown, tcp, config, ◌>>=◌,
  after, done, check, handle_config, handle_all, wire_of, settle, write_text, read_reply, InStep,
}
use asterx_driver.Receiver.Session.{
  line, accepted, clear_command, send_command, send, clear_streams,
}
use asterx_driver.Receiver.Script.{clear_script, Settled, SendsFrom, Sends, >>=-Sends, done-Sends}

flatten-snoc : (xs : List Bytes) (s : Bytes) → flatten (xs ++ s ∷ []) ≡ flatten xs ++ s
unfolding flatten
flatten-snoc [] s = append-nil s
flatten-snoc (x ∷ xs) s = ap (λ t. x ++ t) (flatten-snoc xs s) ∙ sym (append_assoc x (flatten xs) s)

pub handle_all_returned : {S A : Type 0} (e : End S A) → handle_all e ≡ returned tt (wire_of e)
handle_all_returned (returned a w) = refl
handle_all_returned (thrown e w) = refl

check_sent :
    {S A : Type 0} (r : Result A) (w : Wire S) → (wire_of (check {S = S} r w)).sent ≡ w.sent
check_sent (ok a) w = refl
check_sent (error e) w = refl

pub settle_sent {ℓ} :
    {S : Type 0} {A : Type ℓ} (sent : List Bytes) (a : Answer S A)
    → (wire_of (settle sent a)).sent ≡ sent
settle_sent sent (answered a s) = refl
settle_sent sent (failed s) = refl

module _ {S : Type 0} (link : Link S) (timeout : ℕ) where
  reply_sent :
      (a : Answer S Bytes) (sent : List Bytes)
      → (wire_of (after (settle sent a) (λ reply. check (accepted reply)))).sent ≡ sent
  reply_sent (answered reply s) sent = check_sent (accepted reply) _
  reply_sent (failed s) sent = refl

  written_sent :
      (a : Answer S (Unit {0})) (sent : List Bytes)
      → (wire_of (
          after
            (settle sent a)
            (λ _. read_reply link timeout >>= λ reply. check (accepted reply)))).sent
        ≡ sent
  written_sent (answered u s) sent = reply_sent (link.read_until (text ">") timeout s) sent
  written_sent (failed s) sent = refl

  -- A command is handed over before anything can go wrong with it.
  pub send_command-sent :
      (cmd : Bytes) (w : Wire S)
      → (wire_of (send_command link timeout cmd w)).sent ≡ w.sent ++ map line (cmd ∷ [])
  unfolding send_command
  send_command-sent cmd w =
      written_sent (link.write_all (line cmd) w.conn) (w.sent ++ line cmd ∷ [])

module _ {S : Type 0} (link : Link S) (base : Bytes) where
  pub SendsFrom-all {ℓ} :
      {A : Type ℓ} (w : Wire S) (cs : List Bytes) (e : End S A)
      → (wire_of e).sent ≡ w.sent ++ map line cs
      → Settled link base e
      → SendsFrom link base w cs e
  SendsFrom-all w cs (returned a w') h i = (h, i)
  SendsFrom-all w cs (thrown e w') h b = (cs, [], append-nil cs, h, b)

  after-Settled :
      {A B : Type 0} (e : End S A) (k : A → M S B)
      → Settled link base e
      → ((a : A) (w : Wire S) → InStep link base w → Settled link base (k a w))
      → Settled link base (after e k)
  after-Settled (returned a w) k i h = h a w i
  after-Settled (thrown e w) k b h = b

  check-Settled :
      {A : Type 0} (r : Result A) (w : Wire S)
      → InStep link base w
      → Settled link base (check {S = S} r w)
  check-Settled (ok a) w i = i
  check-Settled (error e) w i = i

  -- A failed read has put out nothing.
  settle_read-Settled :
      (sent : List Bytes) (a : Answer S Bytes)
      → link.output (conn_of a) ≡ base ++ flatten sent
      → Settled link base (settle sent a)
  settle_read-Settled sent (answered a s) i = i
  settle_read-Settled sent (failed s) i = (flatten sent, [], append-nil (flatten sent), i)

  pub read_reply-Settled :
      (timeout : ℕ) (w : Wire S)
      → InStep link base w
      → Settled link base (read_reply link timeout w)
  read_reply-Settled timeout w i =
      settle_read-Settled w.sent (link.read_until (text ">") timeout w.conn)
        (link.read_until-output (text ">") timeout w.conn ∙ i)

  settle_write-Settled :
      (sent : List Bytes) (s before : Bytes) (a : Answer S (Unit {0}))
      → before ≡ base ++ flatten sent
      → Puts link.output before s a
      → Settled link base (settle (sent ++ s ∷ []) a)
  settle_write-Settled sent s before (answered u st) i p =
      p
      ∙ ap (λ x. x ++ s) i
      ∙ append_assoc base (flatten sent) s
      ∙ ap (λ x. base ++ x) (sym (flatten-snoc sent s))
  settle_write-Settled sent s before (failed st) i (begun, rest, split, p) = (
    flatten sent ++ begun,
    rest,
    append_assoc (flatten sent) begun rest
        ∙ ap (λ x. flatten sent ++ x) split
        ∙ sym (flatten-snoc sent s),
    p ∙ ap (λ x. x ++ begun) i ∙ append_assoc base (flatten sent) begun,
  )

  write_text-Settled :
      (s : Bytes) (w : Wire S) → InStep link base w → Settled link base (write_text link s w)
  write_text-Settled s w i =
      settle_write-Settled w.sent s (link.output w.conn) (link.write_all s w.conn) i
        (link.write_all-Puts s w.conn)

  send_command-Settled :
      (timeout : ℕ) (cmd : Bytes) (w : Wire S)
      → InStep link base w
      → Settled link base (send_command link timeout cmd w)
  unfolding send_command
  send_command-Settled timeout cmd w i =
      after-Settled (write_text link (line cmd) w) _ (write_text-Settled (line cmd) w i) λ _ w' i'.
        after-Settled (read_reply link timeout w') _ (read_reply-Settled timeout w' i')
          λ reply w'' i''. check-Settled (accepted reply) w'' i''

  handle_config-Settled :
      {A : Type 0} (e : End S A) → Settled link base e → Settled link base (handle_config e)
  handle_config-Settled (returned a w) i = i
  handle_config-Settled (thrown tcp w) b = b
  handle_config-Settled (thrown (config e) w) i = i

  handle_config_sent :
      {A : Type 0} (e : End S A) → (wire_of (handle_config e)).sent ≡ (wire_of e).sent
  handle_config_sent (returned a w) = refl
  handle_config_sent (thrown tcp w) = refl
  handle_config_sent (thrown (config e) w) = refl

  module _ (timeout : ℕ) where
    send_command-Sends : (cmd : Bytes) → Sends link base (send_command link timeout cmd) (cmd ∷ [])
    unfolding Sends
    send_command-Sends cmd w i =
        SendsFrom-all w (cmd ∷ []) (send_command link timeout cmd w)
          (send_command-sent link timeout cmd w) (send_command-Settled timeout cmd w i)

    pub send-Sends : (cmd : Bytes) → Sends link base (send link timeout cmd) (cmd ∷ [])
    send-Sends cmd =
        >>=-Sends link base (cmd ∷ []) [] (send_command link timeout cmd) (λ _. done)
          (send_command-Sends cmd) (λ _. done-Sends link base)

    -- One command and then the rest.
    pub then-Sends :
        {B : Type 0} (cmd : Bytes) (cmds : List Bytes) (k : Bytes → M S B)
        → ((reply : Bytes) → Sends link base (k reply) cmds)
        → Sends link base (send_command link timeout cmd >>= k) (cmd ∷ cmds)
    then-Sends cmd cmds k h =
        >>=-Sends link base (cmd ∷ []) cmds (send_command link timeout cmd) k
          (send_command-Sends cmd) h

    pub then_send-Sends :
        {B : Type 0} (cmd : Bytes) (cmds : List Bytes) (k : M S B)
        → Sends link base k cmds
        → Sends link base (send link timeout cmd >>= λ _. k) (cmd ∷ cmds)
    then_send-Sends cmd cmds k h =
        >>=-Sends link base (cmd ∷ []) cmds (send link timeout cmd) (λ _. k) (send-Sends cmd)
          (λ _. h)

    cleared-Sends :
        (stream_id : ℕ)
        → Sends link base
            (λ w. handle_config (send_command link timeout (clear_command stream_id) w))
            (clear_command stream_id ∷ [])
    unfolding Sends
    cleared-Sends stream_id w i =
        let cmd = clear_command stream_id in
        let e = send_command link timeout cmd w in
        SendsFrom-all w (cmd ∷ []) (handle_config e)
          (handle_config_sent e ∙ send_command-sent link timeout cmd w)
          (handle_config-Settled e (send_command-Settled timeout cmd w i))

    pub clear_streams-Sends :
        (left stream_id : ℕ)
        → Sends link base (clear_streams link timeout left stream_id) (clear_script left stream_id)
    unfolding clear_streams
    clear_streams-Sends zero stream_id = done-Sends link base
    clear_streams-Sends (suc left) stream_id =
        >>=-Sends link base (clear_command stream_id ∷ []) (clear_script left (stream_id + 1))
          (λ w. handle_config (send_command link timeout (clear_command stream_id) w))
          (λ _. clear_streams link timeout left (stream_id + 1)) (cleared-Sends stream_id)
          (λ _. clear_streams-Sends left (stream_id + 1))
