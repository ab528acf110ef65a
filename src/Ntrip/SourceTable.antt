-- ===== src/Ntrip/SourceTable.antt =====
-- src/ntrip/ins401_ntrip_client.cpp: `GetSourceTable`.
use asterx_driver.Base.{
  ◌>>=◌, ℕ, zero, suc, ◌+◌, Bool, true, false, List, [], ◌∷◌, ◌++◌, Option, none, some, Bytes, text,
  strip_prefix, getlines, get_elem?, if◌then◌else◌,
}
use asterx_driver.Receiver.Settings.{ℤ, pos}
use asterx_driver.Ntrip.Request.{
  Options, Peer, Sent, put, send_again, send_failed, Received, got, receive_again, receive_failed,
  build_http_request,
}
use asterx_driver.Ntrip.Lifecycle.{
  Net, Connection, Made, returned, thrown, exhausted, close_connection, connect_socket, ssl_step,
  tick,
}

-- `NTRIPClient::MountPoint`, without the fields that stay at their defaults.
pub record MountPoint (D : Type 0) : Type 0 where
  pub mount_point : Bytes
  pub city : Bytes
  pub data_format : Bytes
  pub format_details : Bytes
  pub carrier : ℤ
  pub nav_system : Bytes
  pub network : Bytes
  pub country : Bytes
  pub latitude : D
  pub longitude : D

-- `INS401Tool::Utility::SplitString` at `;`, `std::stoi` and `std::stod`, which may throw.
pub record Reader (D : Type 0) : Type 0 where
  pub split_string : Bytes → List Bytes
  pub stoi : Bytes → Option ℤ
  pub stod : Bytes → Option D
  pub zero_degrees : D

-- The i-th field, if there is one.
abbrev pub text_at : List Bytes → ℕ → Bytes
text_at fields i = elim (get_elem? fields i) [ some s ↦ s | none ↦ [] ]

abbrev pub number_at : {A : Type 0} → (Bytes → Option A) → A → List Bytes → ℕ → Option A
number_at read default fields i = elim (get_elem? fields i) [
  | some s ↦ read s
  | none ↦ some default
]

-- The lines of the table.
abbrev pub is_stream_line : Bytes → Bool
is_stream_line line = elim (strip_prefix (text "STR;") line) [ some rest ↦ true | none ↦ false ]

-- How the method ends; `failed` is an exception.
pub data TableEnd (D : Type 0) : Type 0 where
  table : List (MountPoint D) → Connection → TableEnd D
  failed : Connection → TableEnd D
  unended : TableEnd D

module _ {D : Type 0} (reader : Reader D) where
  abbrev pub mount_point_of : List Bytes → Option (MountPoint D)
  mount_point_of fields = do
    carrier ← number_at reader.stoi (pos 0) fields 5
    latitude ← number_at reader.stod reader.zero_degrees fields 9
    longitude ← number_at reader.stod reader.zero_degrees fields 10
    some (record {
      mount_point = text_at fields 1;
      city = text_at fields 2;
      data_format = text_at fields 3;
      format_details = text_at fields 4;
      carrier = carrier;
      nav_system = text_at fields 6;
      network = text_at fields 7;
      country = text_at fields 8;
      latitude = latitude;
      longitude = longitude;
    })

  unfoldable pub parse_lines : List Bytes → Option (List (MountPoint D))
  parse_lines [] = some []
  parse_lines (line ∷ lines) =
      let rest = parse_lines lines in
      if is_stream_line line
      then (do
        point ← mount_point_of (reader.split_string line)
        points ← rest
        some (point ∷ points))
      else rest

  -- The connection is not closed after an exception.
  abbrev pub finish_table : Bytes → Connection → TableEnd D
  finish_table response s = elim (parse_lines (getlines b'\n' response)) [
    | some points ↦ table points (close_connection s)
    | none ↦ failed s
  ]

  module _ (net : Net) (peer : Peer) (base64_encode : Bytes → Bytes) (o : Options)
      (is_ssl : Bool) where
    -- The loop reads until `select` or `ReceiveData` brings nothing.
    abbrev pub after_part :
        Bool → (Bytes → Connection → TableEnd D) → Bytes → Connection → Received → TableEnd D
    after_part enable_rtk k response s (got []) = finish_table response s
    after_part enable_rtk k response s (got (b ∷ part)) = k (response ++ b ∷ part) s
    after_part enable_rtk k response s receive_again = finish_table response s
    after_part enable_rtk k response s receive_failed =
        if enable_rtk then failed s else finish_table response s

    unfoldable pub read_loop : ℕ → Bytes → Connection → TableEnd D
    read_loop zero response s = unended
    read_loop (suc fuel) response s =
        let s' = record s { peer_calls = s.peer_calls + 2 } in
        let next =
          after_part o.enable_rtk (read_loop fuel) response s'
            (peer.recv (suc s.peer_calls) 65535) in
        if peer.select s.peer_calls
        then next
        else finish_table response (record s { peer_calls = suc s.peer_calls })

    -- The request is sent in one call, of which any part counts.
    abbrev pub after_request : ℕ → Connection → Sent → TableEnd D
    after_request fuel s (put zero) = table [] (close_connection s)
    after_request fuel s (put (suc n)) = read_loop fuel [] s
    after_request fuel s send_again = table [] (close_connection s)
    after_request fuel s send_failed =
        if o.enable_rtk then failed s else table [] (close_connection s)

    abbrev pub after_ssl : ℕ → Bytes → Made → TableEnd D
    after_ssl fuel gga (returned true s) =
        after_request fuel (record s { peer_calls = suc s.peer_calls })
          (peer.send s.peer_calls (build_http_request base64_encode o gga (text "/")))
    after_ssl fuel gga (returned false s) = table [] (close_connection s)
    after_ssl fuel gga (thrown s) = failed s
    after_ssl fuel gga exhausted = unended

    abbrev pub after_socket_made : ℕ → Bytes → Made → TableEnd D
    after_socket_made fuel gga (returned true s) =
        after_ssl fuel gga
          (if is_ssl then ssl_step net (net.init_ssl s.calls) (tick s) else returned true s)
    after_socket_made fuel gga (returned false s) = table [] s
    after_socket_made fuel gga (thrown s) = failed s
    after_socket_made fuel gga exhausted = unended

    unfoldable pub get_source_table : ℕ → Bytes → Connection → TableEnd D
    get_source_table fuel gga s = after_socket_made fuel gga (connect_socket net o.enable_rtk s)
