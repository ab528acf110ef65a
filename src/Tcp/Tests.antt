-- ===== src/Tcp/Tests.antt =====
-- The theorems on the TCP client at concrete runs.
use asterx_driver.Base.{◌<◌, Bool, true, false, [], none, text, length, ◌≡◌, refl, arith}
use asterx_driver.Tcp.Sockets.{
  End, returned, thrown, exhausted, poll_interrupted, peer_closed, fcntl_error,
}
use asterx_driver.Tcp.{
  read_until, read_exact, write_all, connect, after_getaddrinfo, try_addresses, try_socket,
  set_nonblocking, after_connect, await, adopt, until_loop, before_deadline, grow, read_some,
  after_poll, after_recv,
}
use asterx_driver.Tcp.Read.{Reads, Ended, Unended, read_until-Reads, read_exact-Reads}
use asterx_driver.Tcp.Write.{Writes, write_all-Writes}
use asterx_driver.Tcp.Connect.{Connects, connect-Connects}
use asterx_driver.Tcp.Example.{net, closed_client, open_client, QuietFrom-1}

read_until-Reads_example :
    Reads
      (Ended net (text ">") 8)
      (Unended (text ">") 8)
      []
      (read_until net (text ">") 5 8 open_client)
read_until-Reads_example = read_until-Reads net (text ">") 8 5 open_client

read_exact-Reads_example :
    Reads (λ acc c. length acc ≡ 5) (λ lost. length lost < 5) [] (read_exact net 5 9 open_client)
read_exact-Reads_example = read_exact-Reads net 5 9 open_client

write_all-Writes_example : Writes [] (text "hi") (write_all net 3 (text "hi") open_client)
write_all-Writes_example =
    write_all-Writes net 1 (QuietFrom-1 (text "ok>")) 3 (text "hi") open_client (omega arith)

connect-Connects_example : Connects 0 none (connect net closed_client)
connect-Connects_example = connect-Connects net closed_client

abbrev ended_well : {A : Type 0} → End A → Bool
ended_well (returned a c) = true
ended_well (thrown e c) = false
ended_well exhausted = false

connects : ended_well (connect net closed_client) ≡ true
unfolding connect after_getaddrinfo try_addresses try_socket set_nonblocking after_connect await
    adopt
connects = refl

reads : ended_well (read_until net (text ">") 5 8 open_client) ≡ true
unfolding read_until until_loop before_deadline grow read_some after_poll after_recv
reads = refl

-- A signal while the reply is awaited ends `read_until` with "peer closed".
interrupted_read :
    read_until (record net { poll = λ call timeout. poll_interrupted }) (text ">") 5 8 open_client
    ≡ thrown peer_closed (record open_client { calls = 3 })
unfolding read_until until_loop before_deadline grow read_some after_poll
interrupted_read = refl

-- A failure of `fcntl` leaves the new socket open.
leaked_socket :
    connect (record net { fcntl = λ call. false }) closed_client
    ≡ thrown fcntl_error (record closed_client { open_sockets = 1; calls = 3 })
unfolding connect after_getaddrinfo try_addresses try_socket set_nonblocking
leaked_socket = refl
