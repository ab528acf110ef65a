-- ===== src/Ntrip/Request.antt =====
-- src/ntrip/ins401_ntrip_client.cpp: the texts that the client sends, and the response.
use asterx_driver.Base.{
  ℕ, zero, suc, ◌+◌, ◌-◌, ◌≤◌, Bool, true, false, not, ◌&&◌, ◌||◌, [], ◌∷◌, ◌++◌, none, some, Bytes,
  text, contains, after_first, before_first, length, drop, take, ltb, ◌==◌, if◌then◌else◌, ◌≡◌,
}
use asterx_driver.Receiver.Settings.{ℤ, int_to_string}
use asterx_driver.Receiver.Commands.{is_empty}

-- `NTRIPClient::Options`, without what has its default value.
pub record Options : Type 0 where
  pub enable_rtk : Bool
  pub host : Bytes
  pub port : ℤ
  pub mount_point : Bytes
  pub username : Bytes
  pub password : Bytes
  pub use_vrs : Bool

abbrev pub user_agent : Bytes
user_agent = text "NTRIP/2.0"

module _ (base64_encode : Bytes → Bytes) where
  abbrev pub authorization : Options → Bytes
  authorization o =
      if not (is_empty o.username) && not (is_empty o.password)
      then text "Authorization: Basic "
        ++ base64_encode (o.username ++ text ":" ++ o.password)
        ++ text "\r\n"
      else []

  abbrev pub gga_header : Bytes → Bytes
  gga_header gga = if is_empty gga then [] else text "Ntrip-GGA: " ++ gga ++ text "\r\n"

  unfoldable pub build_http_request : Options → Bytes → Bytes → Bytes
  build_http_request o gga path =
      (text "GET " ++ path ++ text " HTTP/1.1\r\n")
      ++ (text "Host: " ++ o.host ++ text ":" ++ int_to_string o.port ++ text "\r\n")
      ++ (text "User-Agent: " ++ user_agent ++ text "\r\n")
      ++ text "Accept: */*\r\n"
      ++ text "Connection: keep-alive\r\n"
      ++ text "Ntrip-Version: Ntrip/2.0\r\n"
      ++ authorization o
      ++ gga_header gga
      ++ text "\r\n"

-- What `send` and `recv` on the socket may give; `again` stands for `EAGAIN` and the like.
pub data Sent : Type 0 where
  put : ℕ → Sent
  send_again send_failed : Sent

pub data Received : Type 0 where
  got : Bytes → Received
  receive_again receive_failed : Received

-- The n-th call.
pub record Peer : Type 0 where
  pub send : ℕ → Bytes → Sent
  -- with room for so many bytes
  pub recv : ℕ → ℕ → Received
  -- `select` before the response: there is something to read
  pub select : ℕ → Bool
  pub send-le : (call n : ℕ) (p : Bytes) → send call p ≡ put n → n ≤ length p

-- How a method ends: with its value, with an exception of `LogErrorOrWarn`, or its fuel is used up. The
-- bytes are those put out, the number is that of the calls.
pub data End {ℓ} (A : Type ℓ) : Type ℓ where
  returned : A → Bytes → ℕ → End A
  thrown : Bytes → ℕ → End A
  exhausted : End A

-- `LogErrorOrWarn`, and then a value is returned.
abbrev pub fail_with {ℓ} : {A : Type ℓ} → Bool → A → Bytes → ℕ → End A
fail_with enable_rtk a sent calls = if enable_rtk then thrown sent calls else returned a sent calls

-- `SendData` logs an error and the loop logs again.
abbrev pub after_send : Bool → (Bytes → Bytes → ℕ → End Bool) → Bytes → Bytes → ℕ → Sent → End Bool
after_send enable_rtk k p sent calls (put zero) = fail_with enable_rtk false sent calls
after_send enable_rtk k p sent calls (put (suc n)) =
    k (drop (suc n) p) (sent ++ take (suc n) p) calls
after_send enable_rtk k p sent calls _ = fail_with enable_rtk false sent calls

-- The end of the line is completed.
abbrev pub last_or : ℕ → Bytes → ℕ
last_or d [] = d
last_or d (b ∷ s) = last_or b s

abbrev pub complete_line : Bytes → Bytes
complete_line gga =
    if last_or 0 gga == b'\n'
    then gga
    else if last_or 0 gga == b'\r'
    then gga ++ text "\n"
    else gga ++ text "\r\n"

-- `last_gga_sent_` after `SendGGA`.
abbrev pub after_gga : Bool → ℕ → ℕ → Bytes → Bytes → ℕ → Sent → End ℕ
after_gga enable_rtk now last line sent calls (put zero) = returned last sent calls
after_gga enable_rtk now last line sent calls (put (suc n)) =
    returned now (sent ++ take (suc n) line) calls
after_gga enable_rtk now last line sent calls send_again = returned last sent calls
after_gga enable_rtk now last line sent calls send_failed = fail_with enable_rtk last sent calls

abbrev pub header_end : Bytes
header_end = text "\r\n\r\n"

-- What stands behind the header, and the header.
abbrev pub behind : Bytes → Bytes
behind response = elim (after_first header_end response) [ some rest ↦ rest | none ↦ [] ]

abbrev pub header_part : Bytes → Bytes
header_part response = take (length response - length (behind response)) response

abbrev pub is_accepted : Bytes → Bool
is_accepted header = contains (text "200 OK") header || contains (text "ICY 200 OK") header

-- `pending_data_` is changed if there is something behind the header.
abbrev pub pending_after : Bytes → Bytes → Bytes
pending_after rest pending = if is_empty rest then pending else rest

module _ (peer : Peer) (enable_rtk : Bool) where
  -- The loop of `SendRequest`.
  unfoldable pub send_loop : ℕ → Bytes → Bytes → ℕ → End Bool
  send_loop fuel [] sent calls = returned true sent calls
  send_loop zero (b ∷ p) sent calls = exhausted
  send_loop (suc fuel) (b ∷ p) sent calls =
      after_send enable_rtk (send_loop fuel) (b ∷ p) sent (suc calls) (peer.send calls (b ∷ p))

  unfoldable pub send_request : (Bytes → Bytes) → Options → Bytes → ℕ → End Bool
  send_request base64_encode o gga calls =
      let request = build_http_request base64_encode o gga (text "/" ++ o.mount_point) in
      send_loop (length request) request [] calls

  -- With the interval in the unit of the clock.
  unfoldable pub send_gga : ℕ → ℕ → ℕ → Bytes → ℕ → End ℕ
  send_gga interval now last gga calls =
      if ltb now (last + interval)
      then returned last [] calls
      else if is_empty gga
      then returned now [] calls
      else after_gga enable_rtk now last (complete_line gga) [] (suc calls)
          (peer.send calls (complete_line gga))

  -- A piece of the response is appended as a C string, that is, up to its first zero byte.
  abbrev pub after_receive : (Bytes → ℕ → End Bool) → Bytes → Bytes → ℕ → Received → End Bool
  after_receive k pending response calls (got []) = fail_with enable_rtk false pending calls
  after_receive k pending response calls (got (b ∷ piece)) =
      k (response ++ before_first 0 (b ∷ piece)) calls
  after_receive k pending response calls _ = fail_with enable_rtk false pending calls

  -- The end of `ReceiveResponse`.
  abbrev pub accept : Bytes → Bytes → ℕ → End Bool
  accept pending response calls =
      let pending' = pending_after (behind response) pending in
      if is_accepted (header_part response)
      then returned true pending' calls
      else fail_with enable_rtk false pending' calls

  -- Here the bytes of the end are `pending_data_`.
  unfoldable pub response_loop : ℕ → Bytes → Bytes → ℕ → End Bool
  response_loop zero pending response calls = exhausted
  response_loop (suc fuel) pending response calls =
      let next =
        after_receive (response_loop fuel pending) pending response (suc calls)
          (peer.recv calls 4095) in
      if contains header_end response then accept pending response calls else next

  unfoldable pub receive_response : ℕ → Bytes → ℕ → End Bool
  receive_response fuel pending calls =
      let rest = response_loop fuel pending [] (suc calls) in
      if peer.select calls then rest else fail_with enable_rtk false pending (suc calls)
