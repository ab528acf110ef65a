-- ===== src/Ntrip/Rounds.antt =====
-- src/ntrip/ins401_ntrip_client.cpp: the rounds of the loop of `GetSourceTable`.
use mathlib.Core.List.{append_assoc, append-nil}
use mathlib.Core.Path.{subst}
use asterx_driver.Base.{
  ℕ, zero, suc, ◌+◌, Bool, true, false, List, [], ◌∷◌, ◌++◌, Option, none, some, Bytes, getlines,
  ◌&&◌, ◌⊎◌, inl, inr, ◌≡◌, sym,
}
use asterx_driver.Ntrip.Request.{Peer, got, receive_again, receive_failed}
use asterx_driver.Ntrip.Lifecycle.{Connection, close_connection}
use asterx_driver.Ntrip.SourceTable.{
  MountPoint, Reader, TableEnd, table, failed, unended, parse_lines, finish_table,
}
use asterx_driver.Ntrip.Rows.{stream_lines, Named, Unreadable, Parsed, parse_lines-Parsed}

-- What the rounds of a reading loop from the n-th call on bring together, up to the first round that
-- brings nothing, and whether that one failed.
pub data Arrives (peer : Peer) : ℕ → Bytes → Bool → Type 0 where
  silent : (n : ℕ) → peer.select n ≡ false → Arrives peer n [] false
  over : (n : ℕ) → peer.select n ≡ true → peer.recv (suc n) 65535 ≡ got [] → Arrives peer n [] false
  later :
      (n : ℕ)
      → peer.select n ≡ true
      → peer.recv (suc n) 65535 ≡ receive_again
      → Arrives peer n [] false
  broken :
      (n : ℕ)
      → peer.select n ≡ true
      → peer.recv (suc n) 65535 ≡ receive_failed
      → Arrives peer n [] true
  piece :
      (n b : ℕ) (part rest : Bytes) (lost : Bool)
      → peer.select n ≡ true
      → peer.recv (suc n) 65535 ≡ got (b ∷ part)
      → Arrives peer (n + 2) rest lost
      → Arrives peer n (b ∷ (part ++ rest)) lost

-- Each of so many rounds brings something.
abbrev pub Goes : Peer → ℕ → ℕ → Type 0
Goes peer n zero = Unit
Goes peer n (suc k) =
    (peer.select n ≡ true)
    × ((b : ℕ) × (part : Bytes) × (peer.recv (suc n) 65535 ≡ got (b ∷ part)))
    × Goes peer (n + 2) k

module _ {D : Type 0} (reader : Reader D) (peer : Peer) (enable_rtk : Bool) where
  -- What is listed after `acc` and what the rounds from the n-th call on bring.
  abbrev pub Lists : Bytes → ℕ → ℕ → TableEnd D → Type 0
  Lists acc n fuel (table points t) =
      (arrived : Bytes) × (lost : Bool) × Arrives peer n arrived lost
      × ((lost && enable_rtk) ≡ false)
      × Named reader (stream_lines (getlines b'\n' (acc ++ arrived))) points
  Lists acc n fuel (failed t) =
      (arrived : Bytes) × (lost : Bool) × Arrives peer n arrived lost
      × (((lost && enable_rtk) ≡ true)
          ⊎ Unreadable reader (stream_lines (getlines b'\n' (acc ++ arrived))))
  Lists acc n fuel unended = Goes peer n fuel

  parsed-Lists :
      (acc : Bytes) (n fuel : ℕ) (s : Connection) (lost : Bool) (o : Option (List (MountPoint D)))
      → Arrives peer n [] lost
      → (lost && enable_rtk) ≡ false
      → Parsed reader (stream_lines (getlines b'\n' (acc ++ []))) o
      → Lists acc n fuel
          (elim o [ some points ↦ table points (close_connection s) | none ↦ failed s ])
  parsed-Lists acc n fuel s lost none a e h = ([], lost, a, inr h)
  parsed-Lists acc n fuel s lost (some points) a e h = ([], lost, a, e, h)

  pub finish_table-Lists :
      (acc : Bytes) (n fuel : ℕ) (s : Connection) (lost : Bool)
      → Arrives peer n [] lost
      → (lost && enable_rtk) ≡ false
      → Lists acc n fuel (finish_table reader acc s)
  finish_table-Lists acc n fuel s lost a e =
      let P : Bytes → Type 0 = λ r.
        Parsed reader (stream_lines (getlines b'\n' r)) (parse_lines reader (getlines b'\n' acc)) in
      parsed-Lists acc n fuel s lost (parse_lines reader (getlines b'\n' acc)) a e
        (subst P (sym (append-nil acc)) (parse_lines-Parsed reader (getlines b'\n' acc)))

  pub piece-Lists :
      (acc part : Bytes) (b n fuel : ℕ) (e : TableEnd D)
      → peer.select n ≡ true
      → peer.recv (suc n) 65535 ≡ got (b ∷ part)
      → Lists (acc ++ b ∷ part) (n + 2) fuel e
      → Lists acc n (suc fuel) e
  piece-Lists acc part b n fuel (table points t) up e (rest, lost, a, fine, h) = (
    b ∷ (part ++ rest),
    lost,
    piece n b part rest lost up e a,
    fine,
    subst (λ r. Named reader (stream_lines (getlines b'\n' r)) points)
        (append_assoc acc (b ∷ part) rest) h,
  )
  piece-Lists acc part b n fuel (failed t) up e (rest, lost, a, inl on) =
      (b ∷ (part ++ rest), lost, piece n b part rest lost up e a, inl on)
  piece-Lists acc part b n fuel (failed t) up e (rest, lost, a, inr bad) = (
    b ∷ (part ++ rest),
    lost,
    piece n b part rest lost up e a,
    inr (
        subst (λ r. Unreadable reader (stream_lines (getlines b'\n' r)))
          (append_assoc acc (b ∷ part) rest) bad),
  )
  piece-Lists acc part b n fuel unended up e h = (up, (b, part, e), h)
