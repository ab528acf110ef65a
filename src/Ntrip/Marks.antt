-- ===== src/Ntrip/Marks.antt =====
-- src/ntrip/ins401_ntrip_client.cpp: what `Disconnect` leaves behind.
use mathlib.Core.Path.{subst}
use asterx_driver.Base.{ℕ, Bool, true, false, Option, Bytes, choice, ◌≡◌, refl}
use asterx_driver.Ntrip.Reconnect.{Attempt, succeeded, refused, threw}
use asterx_driver.Ntrip.Request as Texts
use asterx_driver.Ntrip.Request.{Options, Peer, send_request, receive_response}
use asterx_driver.Ntrip.Lifecycle.{
  Net, Connection, Made, returned, thrown, exhausted, tick, close_descriptor, connect_socket,
  or_close, ssl_step, request_step, response_step, init_ssl_step, send_step, receive_step,
  mark_connected, await_response, make_request, secure, connect,
}
use asterx_driver.Base.{ap, ◌∙◌}
use asterx_driver.Ntrip.Untouched.{kept, Keeps, closed_calls, connect_socket-Keeps}

-- The mark of `Disconnect` stays.
abbrev Holds : Bool → Made → Type 0
Holds d (returned ok t) = t.is_disconnected ≡ d
Holds d (thrown t) = t.is_disconnected ≡ d
Holds d exhausted = Unit

-- It is taken away by a connection, and only by that.
abbrev pub Marks : Bool → Made → Type 0
Marks d (returned true t) = t.is_disconnected ≡ false
Marks d (returned false t) = t.is_disconnected ≡ d
Marks d (thrown t) = t.is_disconnected ≡ d
Marks d exhausted = Unit

kept-Holds : (n : ℕ × Bool) (m : Made) → Keeps n m → Holds n.1 m
kept-Holds n (returned ok t) e = ap (λ (p : ℕ × Bool). p.1) e
kept-Holds n (thrown t) e = ap (λ (p : ℕ × Bool). p.1) e
kept-Holds n exhausted e = tt

closed_mark :
    (fd : Option ℕ) (s : Connection) → (close_descriptor fd s).is_disconnected ≡ s.is_disconnected
closed_mark fd s = ap (λ (p : ℕ × Bool). p.1) (closed_calls fd s)

module _ (net : Net) (peer : Peer) (base64_encode : Bytes → Bytes) (fuel : ℕ) (o : Options)
    (is_ssl : Bool) (gga : Bytes) (d : Bool) where
  or_close-Marks :
      (m : Made) (k : Connection → Made)
      → Holds d m
      → ((t : Connection) → t.is_disconnected ≡ d → Marks d (k t))
      → Marks d (or_close net m k)
  or_close-Marks (returned true t) k e h = h t e
  or_close-Marks (returned false t) k e h =
      closed_mark t.socket_fd (record t { is_connected = false }) ∙ e
  or_close-Marks (thrown t) k e h = e
  or_close-Marks exhausted k e h = tt

  ssl_step-Holds :
      (a : Attempt) (s : Connection) → s.is_disconnected ≡ d → Holds d (ssl_step net a s)
  ssl_step-Holds succeeded s e = e
  ssl_step-Holds refused s e = e
  ssl_step-Holds threw s e = e

  request_step-Holds :
      (s : Connection) (r : Texts.End Bool) → s.is_disconnected ≡ d → Holds d (request_step net s r)
  request_step-Holds s (Texts.returned ok sent calls) e = e
  request_step-Holds s (Texts.thrown sent calls) e = e
  request_step-Holds s Texts.exhausted e = tt

  response_step-Holds :
      (s : Connection) (r : Texts.End Bool)
      → s.is_disconnected ≡ d
      → Holds d (response_step net s r)
  response_step-Holds s (Texts.returned ok sent calls) e = e
  response_step-Holds s (Texts.thrown sent calls) e = e
  response_step-Holds s Texts.exhausted e = tt

  await_response-Marks :
      (s : Connection)
      → s.is_disconnected ≡ d
      → Marks d (await_response net peer base64_encode fuel o is_ssl gga s)
  await_response-Marks s e =
      or_close-Marks (receive_step net peer base64_encode fuel o is_ssl gga s)
        (mark_connected net peer base64_encode fuel o is_ssl gga)
        (response_step-Holds s (receive_response peer o.enable_rtk fuel s.pending_data s.peer_calls)
          e)
        (λ t e'. refl)

  make_request-Marks :
      (s : Connection)
      → s.is_disconnected ≡ d
      → Marks d (make_request net peer base64_encode fuel o is_ssl gga s)
  make_request-Marks s e =
      or_close-Marks (send_step net peer base64_encode fuel o is_ssl gga s)
        (await_response net peer base64_encode fuel o is_ssl gga)
        (request_step-Holds s (send_request peer o.enable_rtk base64_encode o gga s.peer_calls) e)
        await_response-Marks

  secure-Marks :
      (s : Connection)
      → s.is_disconnected ≡ d
      → Marks d (secure net peer base64_encode fuel o is_ssl gga s)
  secure-Marks s e =
      or_close-Marks (init_ssl_step net peer base64_encode fuel o is_ssl gga s)
        (make_request net peer base64_encode fuel o is_ssl gga)
        (choice (Holds d) is_ssl _ _ (λ _. ssl_step-Holds (net.init_ssl s.calls) (tick s) e)
          (λ _. e))
        make_request-Marks

  pub connect-Marks :
      (s : Connection)
      → s.is_connected ≡ false
      → s.is_disconnected ≡ d
      → Marks d (connect net peer base64_encode fuel o is_ssl gga s)
  unfolding connect
  connect-Marks s n e =
      let h =
        or_close-Marks (connect_socket net o.enable_rtk s)
          (secure net peer base64_encode fuel o is_ssl gga)
          (subst (λ b. Holds b (connect_socket net o.enable_rtk s)) e
            (kept-Holds (kept s) (connect_socket net o.enable_rtk s)
              (connect_socket-Keeps net o.enable_rtk s)))
          secure-Marks in
      choice (Marks d) s.is_connected _ _ (λ up. absurd (cc)) (λ _. h)
