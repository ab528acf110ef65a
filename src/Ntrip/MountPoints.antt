-- ===== src/Ntrip/MountPoints.antt =====
-- src/ntrip/ins401_ntrip_client.cpp: the mount points that `GetSourceTable` lists.
use mathlib.Core.Path.{subst}
use asterx_driver.Base.{
  ℕ, zero, suc, ◌+◌, Bool, true, false, [], ◌∷◌, ◌++◌, Bytes, text, choice, inl, ◌≡◌, refl, ap,
}
use asterx_driver.Ntrip.Request.{
  Options, Peer, Sent, put, send_again, send_failed, Received, got, receive_again, receive_failed,
  build_http_request,
}
use asterx_driver.Ntrip.Lifecycle.{
  Net, Connection, Made, returned, thrown, exhausted, close_connection, connect_socket,
}
use asterx_driver.Ntrip.SourceTable.{
  Reader, TableEnd, table, failed, after_part, read_loop, after_request, after_ssl,
  after_socket_made, get_source_table,
}
use asterx_driver.Ntrip.Reconnect.{Attempt, succeeded, refused, threw}
use asterx_driver.Ntrip.Lifecycle.{ssl_step, tick}
use asterx_driver.Ntrip.Untouched.{kept, Keeps, connect_socket-Keeps}
use asterx_driver.Ntrip.Rounds.{silent, over, later, broken, Lists, finish_table-Lists, piece-Lists}

module _ {D : Type 0} (reader : Reader D) (net : Net) (peer : Peer) (base64_encode : Bytes → Bytes)
    (o : Options) (is_ssl : Bool) where
  after_part-Lists :
      (k : Bytes → Connection → TableEnd D) (acc : Bytes) (n fuel : ℕ) (s : Connection)
      (r : Received)
      → peer.select n ≡ true
      → peer.recv (suc n) 65535 ≡ r
      → ((longer : Bytes) → Lists reader peer o.enable_rtk longer (n + 2) fuel (k longer s))
      → Lists reader peer o.enable_rtk acc n
          (suc fuel)
          (after_part reader net peer base64_encode o is_ssl o.enable_rtk k acc s r)
  after_part-Lists k acc n fuel s (got []) up e h =
      finish_table-Lists reader peer o.enable_rtk acc n (suc fuel) s false (over n up e) refl
  after_part-Lists k acc n fuel s (got (b ∷ part)) up e h =
      piece-Lists reader peer o.enable_rtk acc part b n fuel (k (acc ++ b ∷ part) s) up e
        (h (acc ++ b ∷ part))
  after_part-Lists k acc n fuel s receive_again up e h =
      finish_table-Lists reader peer o.enable_rtk acc n (suc fuel) s false (later n up e) refl
  after_part-Lists k acc n fuel s receive_failed up e h =
      choice (Lists reader peer o.enable_rtk acc n (suc fuel)) o.enable_rtk _ _
        (λ on. ([], true, broken n up e, inl on))
        (λ off.
          finish_table-Lists reader peer o.enable_rtk acc n (suc fuel) s true (broken n up e) off)

  read_loop-Lists :
      (fuel : ℕ) (acc : Bytes) (s : Connection)
      → Lists reader peer o.enable_rtk acc s.peer_calls fuel
          (read_loop reader net peer base64_encode o is_ssl fuel acc s)
  unfolding read_loop
  read_loop-Lists zero acc s = tt
  read_loop-Lists (suc fuel) acc s =
      let n = s.peer_calls in
      let s' = record s { peer_calls = n + 2 } in
      choice (Lists reader peer o.enable_rtk acc n (suc fuel)) (peer.select n) _ _
        (λ up.
          after_part-Lists (read_loop reader net peer base64_encode o is_ssl fuel) acc n fuel s'
            (peer.recv (suc n) 65535) up refl (λ longer. read_loop-Lists fuel longer s'))
        (λ down.
          finish_table-Lists reader peer o.enable_rtk acc n (suc fuel)
            (record s { peer_calls = suc n }) false (silent n down) refl)

  -- The connection was made, with TLS if that is on.
  abbrev pub Linked : Made → Type 0
  Linked (returned true t) = is_ssl ≡ true → net.init_ssl t.calls ≡ succeeded
  Linked _ = ⊥

  abbrev pub IsPut : Sent → Type 0
  IsPut (put (suc n)) = Unit
  IsPut _ = ⊥

  -- How the method ends after the connection and the call that sends the request.
  pub data Outcome (fuel : ℕ) (m : Made) (calls : ℕ) (answer : Sent) : TableEnd D → Type 0 where
    unlinked : (t : Connection) → ¬ Linked m → Outcome fuel m calls answer (table [] t)
    unlinked_failed : (t : Connection) → ¬ Linked m → Outcome fuel m calls answer (failed t)
    unsent : (t : Connection) → Linked m → ¬ IsPut answer → Outcome fuel m calls answer (table [] t)
    unsent_failed :
        (t : Connection)
        → Linked m
        → answer ≡ send_failed
        → o.enable_rtk ≡ true
        → Outcome fuel m calls answer (failed t)
    asked :
        (e : TableEnd D)
        → Linked m
        → IsPut answer
        → Lists reader peer o.enable_rtk [] calls fuel e
        → Outcome fuel m calls answer e

  abbrev pub request_of : Bytes → Bytes
  request_of gga = build_http_request base64_encode o gga (text "/")

  abbrev pub ListsSome : ℕ → Bytes → Connection → TableEnd D → Type 0
  ListsSome fuel gga s e =
      Outcome fuel (connect_socket net o.enable_rtk s) (suc s.peer_calls)
        (peer.send s.peer_calls (request_of gga)) e

  after_request-Outcome :
      (fuel : ℕ) (m : Made) (s : Connection) (answer : Sent)
      → Linked m
      → Outcome fuel m s.peer_calls answer
          (after_request reader net peer base64_encode o is_ssl fuel s answer)
  after_request-Outcome fuel m s (put zero) linked = unsent (close_connection s) linked (λ h. h)
  after_request-Outcome fuel m s (put (suc n)) linked =
      asked (read_loop reader net peer base64_encode o is_ssl fuel [] s) linked tt
        (read_loop-Lists fuel [] s)
  after_request-Outcome fuel m s send_again linked = unsent (close_connection s) linked (λ h. h)
  after_request-Outcome fuel m s send_failed linked =
      choice (Outcome fuel m s.peer_calls send_failed) o.enable_rtk _ _
        (λ on. unsent_failed s linked refl on) (λ _. unsent (close_connection s) linked (λ h. h))

  module _ (fuel : ℕ) (gga : Bytes) where
    abbrev After : Made → ℕ → TableEnd D → Type 0
    After m calls e = Outcome fuel m (suc calls) (peer.send calls (request_of gga)) e

    after_ssl-After :
        (s : Connection) (a : Attempt)
        → is_ssl ≡ true
        → net.init_ssl s.calls ≡ a
        → After
            (returned true s)
            s.peer_calls
            (after_ssl reader net peer base64_encode o is_ssl fuel gga (ssl_step net a (tick s)))
    after_ssl-After s succeeded on e =
        after_request-Outcome fuel (returned true s)
          (record (tick s) { peer_calls = suc s.peer_calls })
          (peer.send s.peer_calls (request_of gga)) (λ _. e)
    after_ssl-After s refused on e =
        unlinked (close_connection (tick s)) (λ linked. let e' = linked on in absurd (cc))
    after_ssl-After s threw on e =
        unlinked_failed (tick s) (λ linked. let e' = linked on in absurd (cc))

    after_socket_made-After :
        (m : Made) (calls : ℕ × Bool)
        → Keeps calls m
        → After m calls.0 (after_socket_made reader net peer base64_encode o is_ssl fuel gga m)
    after_socket_made-After (returned true s) calls e =
        let P : Made → Type 0 = λ m.
          After (returned true s) s.peer_calls
            (after_ssl reader net peer base64_encode o is_ssl fuel gga m) in
        subst
          (λ n.
            After (returned true s) n
              (after_socket_made reader net peer base64_encode o is_ssl fuel gga (returned true s)))
          (ap (λ (p : ℕ × Bool). p.0) e)
          (choice P is_ssl _ _ (λ on. after_ssl-After s (net.init_ssl s.calls) on refl)
            (λ off.
              after_request-Outcome fuel (returned true s)
                (record s { peer_calls = suc s.peer_calls })
                (peer.send s.peer_calls (request_of gga)) (λ on. absurd (cc))))
    after_socket_made-After (returned false s) calls e = unlinked s (λ h. h)
    after_socket_made-After (thrown s) calls e = unlinked_failed s (λ h. h)
    after_socket_made-After exhausted calls e = absurd e

    -- When the connection is made and the call that sends the request puts out at least one byte,
    -- `GetSourceTable` goes through the rounds of its loop from the next call on: they bring one text, up to
    -- the first round that brings nothing, and the mount points are named as the second fields of the
    -- lines of this text that begin with "STR;" are, in their order. It throws only when one of these
    -- lines cannot be read as a mount point, or when that round failed and `enable_rtk` is set. Its fuel is used up
    -- only when all these rounds brought something. Without the connection or with nothing put out it lists
    -- no mount point or throws.
    pub get_source_table-ListsSome :
        (s : Connection)
        → ListsSome fuel gga s (get_source_table reader net peer base64_encode o is_ssl fuel gga s)
    unfolding get_source_table
    get_source_table-ListsSome s =
        after_socket_made-After (connect_socket net o.enable_rtk s) (kept s)
          (connect_socket-Keeps net o.enable_rtk s)
