-- ===== src/Ntrip/Answered.antt =====
-- src/ntrip/ins401_ntrip_client.cpp: when `ReceiveResponse` ends.
use mathlib.Core.List.{append_assoc, append-nil}
use asterx_driver.Base.{
  ℕ, zero, suc, ◌<◌, Bool, true, false, [], ◌∷◌, ◌++◌, Bytes, contains, choice, ◌≡◌, ap, ◌∙◌, arith,
}
use asterx_driver.Ntrip.Request.{
  Received, got, receive_again, receive_failed, Peer, End, returned, thrown, exhausted, fail_with,
  header_end, header_part, is_accepted, after_receive, response_loop, receive_response,
}
use asterx_driver.Ntrip.Response.{text_of, received}

-- The method has ended.
abbrev pub HasAnswer : End Bool → Type 0
HasAnswer (returned a pending calls) = Unit
HasAnswer (thrown pending calls) = Unit
HasAnswer exhausted = ⊥

module _ (peer : Peer) (enable_rtk : Bool) where
  fail_with-HasAnswer :
      (pending : Bytes) (calls : ℕ) → HasAnswer (fail_with enable_rtk false pending calls)
  fail_with-HasAnswer pending calls = choice HasAnswer enable_rtk _ _ (λ _. tt) (λ _. tt)

  after_receive-HasAnswer :
      (response pending : Bytes) (k : Bytes → ℕ → End Bool) (calls : ℕ) (r : Received)
      → HasAnswer (k (response ++ text_of r) calls)
      → HasAnswer (after_receive peer enable_rtk k pending response calls r)
  after_receive-HasAnswer response pending k calls (got []) h = fail_with-HasAnswer pending calls
  after_receive-HasAnswer response pending k calls (got (b ∷ piece)) h = h
  after_receive-HasAnswer response pending k calls receive_again h =
      fail_with-HasAnswer pending calls
  after_receive-HasAnswer response pending k calls receive_failed h =
      fail_with-HasAnswer pending calls

  response_loop-HasAnswer :
      (k fuel n : ℕ) (pending response : Bytes)
      → contains header_end (response ++ received peer k n) ≡ true
      → k < fuel
      → HasAnswer (response_loop peer enable_rtk fuel pending response n)
  unfolding response_loop
  response_loop-HasAnswer k zero n pending response h enough = absurd (omega arith)
  response_loop-HasAnswer zero (suc fuel) n pending response h enough =
      choice HasAnswer (contains header_end response) _ _
        (λ _.
          choice HasAnswer (is_accepted (header_part response)) _ _ (λ _. tt)
            (λ _. fail_with-HasAnswer _ n))
        (λ none_there. absurd (let e = ap (contains header_end) (append-nil response) in cc))
  response_loop-HasAnswer (suc k) (suc fuel) n pending response h enough =
      choice HasAnswer (contains header_end response) _ _
        (λ _.
          choice HasAnswer (is_accepted (header_part response)) _ _ (λ _. tt)
            (λ _. fail_with-HasAnswer _ n))
        (λ _.
          after_receive-HasAnswer response pending (response_loop peer enable_rtk fuel pending)
            (suc n) (peer.recv n 4095)
            (response_loop-HasAnswer k fuel (suc n) pending (response ++ text_of (peer.recv n 4095))
              (ap (contains header_end)
                  (append_assoc response (text_of (peer.recv n 4095)) (received peer k (suc n)))
                ∙ h)
              (omega arith)))

  -- When the header is complete after `k` calls of `ReceiveData`, `ReceiveResponse` ends within fuel for
  -- one round more.
  pub receive_response-HasAnswer :
      (k fuel n : ℕ) (pending : Bytes)
      → contains header_end (received peer k (suc n)) ≡ true
      → k < fuel
      → HasAnswer (receive_response peer enable_rtk fuel pending n)
  unfolding receive_response
  receive_response-HasAnswer k fuel n pending h enough =
      choice HasAnswer (peer.select n) _ _
        (λ _. response_loop-HasAnswer k fuel (suc n) pending [] h enough)
        (λ _. fail_with-HasAnswer pending (suc n))
