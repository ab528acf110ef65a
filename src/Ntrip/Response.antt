-- ===== src/Ntrip/Response.antt =====
-- src/ntrip/ins401_ntrip_client.cpp: which responses `ReceiveResponse` accepts.
use mathlib.Core.List.{append_assoc, append-nil}
use mathlib.Core.Path.{subst}
use native.Mathlib.Nat.{add-zero}
use asterx_driver.Base.{
  ℕ, zero, suc, ◌+◌, Bool, true, false, [], ◌∷◌, ◌++◌, Bytes, text, contains, before_first, choice,
  ◌⊎◌, inl, inr, ◌≡◌, refl, sym, ap, ◌∙◌, arith,
}
use asterx_driver.Ntrip.Request.{
  Received, got, receive_again, receive_failed, Peer, End, returned, thrown, exhausted, fail_with,
  header_end, behind, header_part, is_accepted, pending_after, after_receive, accept, response_loop,
  receive_response,
}
use asterx_driver.Ntrip.Header.{
  Splits, HasHeader, contains-HasHeader, Between, accepted-Between, not_accepted,
}

-- The bytes that `k` calls from the n-th on have brought, each up to its first zero byte.
abbrev pub text_of : Received → Bytes
text_of (got piece) = before_first 0 piece
text_of _ = []

abbrev pub received : Peer → ℕ → ℕ → Bytes
received peer zero n = []
received peer (suc k) n = text_of (peer.recv n 4095) ++ received peer k (suc n)

-- A call that brings no byte.
abbrev pub Silent : Received → Type 0
Silent (got []) = Unit
Silent (got (b ∷ piece)) = ⊥
Silent _ = Unit

-- What stands behind the header is kept, unless there is nothing.
abbrev pub Keeps : Bytes → Bytes → Bytes → Type 0
Keeps [] pending pending' = pending' ≡ pending
Keeps (b ∷ body) pending pending' = pending' ≡ b ∷ body

pending_after-Keeps : (body pending : Bytes) → Keeps body pending (pending_after body pending)
pending_after-Keeps [] pending = refl
pending_after-Keeps (b ∷ body) pending = refl

-- After `k` calls from the n-th on the text has a complete header, with `status` of it, and all that
-- stands behind the header is kept.
abbrev pub Complete : (Bytes → Type 0) → Bytes → Bytes → Bytes → Type 0
Complete Status response pending pending' =
    (front : Bytes) × (body : Bytes) × (Splits response front body
      × Status (front ++ header_end)
      × Keeps body pending pending')

abbrev pub IsGood : Bytes → Type 0
IsGood header = Between (text "200 OK") header

abbrev pub IsBad : Bytes → Type 0
IsBad header = contains (text "200 OK") header ≡ false

abbrev pub Accepts : Peer → ℕ → Bytes → Bytes → Bytes → ℕ → Type 0
Accepts peer n response pending pending' calls =
    (k : ℕ) × (calls ≡ n + k) × Complete IsGood (response ++ received peer k n) pending pending'

-- The header is complete and without the status, or it is not complete when a call brings nothing.
abbrev pub Refuses : Peer → ℕ → Bytes → Bytes → Bytes → ℕ → Type 0
Refuses peer n response pending pending' calls =
    (k : ℕ) × (((calls ≡ n + k) × Complete IsBad (response ++ received peer k n) pending pending')
      ⊎ ((calls ≡ suc (n + k))
          × Silent (peer.recv (n + k) 4095)
          × (contains header_end (response ++ received peer k n) ≡ false)
          × (pending' ≡ pending)))

abbrev pub Answers : Peer → ℕ → Bytes → Bytes → End Bool → Type 0
Answers peer n response pending (returned true pending' calls) =
    Accepts peer n response pending pending' calls
Answers peer n response pending (returned false pending' calls) =
    Refuses peer n response pending pending' calls
Answers peer n response pending (thrown pending' calls) =
    Refuses peer n response pending pending' calls
Answers peer n response pending exhausted = Unit

module _ (peer : Peer) (enable_rtk : Bool) where
  fail_with-Answers :
      (n : ℕ) (response pending pending' : Bytes) (calls : ℕ)
      → Refuses peer n response pending pending' calls
      → Answers peer n response pending (fail_with enable_rtk false pending' calls)
  fail_with-Answers n response pending pending' calls r =
      choice (Answers peer n response pending) enable_rtk _ _ (λ _. r) (λ _. r)

  Complete-now :
      (Status : Bytes → Type 0) (response pending : Bytes) (h : HasHeader response)
      → Status (h.front ++ header_end)
      → Complete Status (response ++ []) pending (pending_after (behind response) pending)
  Complete-now Status response pending h status =
      subst (λ r. Complete Status r pending (pending_after (behind response) pending))
        (sym (append-nil response))
        (
          h.front,
          h.body,
          (
            h.splits,
            status,
            subst (λ b. Keeps h.body pending (pending_after b pending)) (sym h.rest)
                (pending_after-Keeps h.body pending),
          ),
        )

  accept-Answers :
      (n : ℕ) (response pending : Bytes)
      → contains header_end response ≡ true
      → Answers peer n response pending (accept peer enable_rtk pending response n)
  accept-Answers n response pending e =
      let h = contains-HasHeader response e in
      choice (Answers peer n response pending) (is_accepted (header_part response)) _ _
        (λ good. (
          0,
          sym (add-zero n),
          Complete-now IsGood response pending h
              (subst IsGood h.header (accepted-Between (header_part response) good)),
        ))
        (λ bad. fail_with-Answers n response pending _ n (
          0,
          inl (
            sym (add-zero n),
            Complete-now IsBad response pending h
                (subst IsBad h.header (not_accepted (header_part response) bad)),
          ),
        ))

  -- One call more in front.
  longer :
      (n k : ℕ) (response piece : Bytes)
      → text_of (peer.recv n 4095) ≡ piece
      → (response ++ piece) ++ received peer k (suc n) ≡ response ++ received peer (suc k) n
  longer n k response piece e =
      append_assoc response piece (received peer k (suc n))
      ∙ ap (λ x. response ++ (x ++ received peer k (suc n))) (sym e)

  more-Refuses :
      (n : ℕ) (response piece pending pending' : Bytes) (calls : ℕ)
      → text_of (peer.recv n 4095) ≡ piece
      → Refuses peer (suc n) (response ++ piece) pending pending' calls
      → Refuses peer n response pending pending' calls
  more-Refuses n response piece pending pending' calls e (k, inl (c, h)) = (
    suc k,
    inl (
      omega arith,
      subst (λ r. Complete IsBad r pending pending') (longer n k response piece e) h,
    ),
  )
  more-Refuses n response piece pending pending' calls e (k, inr (c, silent, absent, same)) =
      let next : suc n + k ≡ n + suc k = omega arith in
      (
        suc k,
        inr (
          omega arith,
          subst (λ i. Silent (peer.recv i 4095)) next silent,
          subst (λ r. contains header_end r ≡ false) (longer n k response piece e) absent,
          same,
        ),
      )

  more-Answers :
      (n : ℕ) (response piece pending : Bytes) (e : End Bool)
      → text_of (peer.recv n 4095) ≡ piece
      → Answers peer (suc n) (response ++ piece) pending e
      → Answers peer n response pending e
  more-Answers n response piece pending (returned true pending' calls) e (k, c, h) = (
    suc k,
    omega arith,
    subst (λ r. Complete IsGood r pending pending') (longer n k response piece e) h,
  )
  more-Answers n response piece pending (returned false pending' calls) e r =
      more-Refuses n response piece pending pending' calls e r
  more-Answers n response piece pending (thrown pending' calls) e r =
      more-Refuses n response piece pending pending' calls e r
  more-Answers n response piece pending exhausted e r = tt

  Silent-Answers :
      (n : ℕ) (response pending : Bytes) (r : Received)
      → peer.recv n 4095 ≡ r
      → Silent r
      → contains header_end response ≡ false
      → Answers peer n response pending (fail_with enable_rtk false pending (suc n))
  Silent-Answers n response pending r e silent absent =
      let here : n + 0 ≡ n = add-zero n in
      fail_with-Answers n response pending pending (suc n) (
        0,
        inr (
          ap suc (sym here),
          subst (λ i. Silent (peer.recv i 4095)) (sym here) (subst Silent (sym e) silent),
          subst (λ x. contains header_end x ≡ false) (sym (append-nil response)) absent,
          refl,
        ),
      )

  after_receive-Answers :
      (n : ℕ) (response pending : Bytes) (k : Bytes → ℕ → End Bool) (r : Received)
      → peer.recv n 4095 ≡ r
      → contains header_end response ≡ false
      → ((longer : Bytes) → Answers peer (suc n) longer pending (k longer (suc n)))
      → Answers peer n response pending (after_receive peer enable_rtk k pending response (suc n) r)
  after_receive-Answers n response pending k (got []) e absent h =
      Silent-Answers n response pending (got []) e tt absent
  after_receive-Answers n response pending k (got (b ∷ piece)) e absent h =
      more-Answers n response (before_first 0 (b ∷ piece)) pending _ (ap text_of e)
        (h (response ++ before_first 0 (b ∷ piece)))
  after_receive-Answers n response pending k receive_again e absent h =
      Silent-Answers n response pending receive_again e tt absent
  after_receive-Answers n response pending k receive_failed e absent h =
      Silent-Answers n response pending receive_failed e tt absent

  response_loop-Answers :
      (fuel n : ℕ) (pending response : Bytes)
      → Answers peer n response pending (response_loop peer enable_rtk fuel pending response n)
  unfolding response_loop
  response_loop-Answers zero n pending response = tt
  response_loop-Answers (suc fuel) n pending response =
      choice (Answers peer n response pending) (contains header_end response) _ _
        (λ h. accept-Answers n response pending h)
        (λ absent.
          after_receive-Answers n response pending (response_loop peer enable_rtk fuel pending)
            (peer.recv n 4095) refl absent
            (λ longer. response_loop-Answers fuel (suc n) pending longer))

  -- When there is something to read, `ReceiveResponse` returns true only with a complete header that has
  -- "200 OK" in it: what its `k` calls of `ReceiveData` brought, each up to its first zero byte, is
  -- something with the first empty line at its end, and then the body. It returns false or throws only
  -- with a complete header that does not have "200 OK" in it, or when the header is not complete and
  -- the last call brought nothing. With a complete header `pending_data_` is the body, or what it was if
  -- the body is empty, and otherwise it is what it was. Nothing is said when the fuel is used up.
  pub receive_response-Answers :
      (fuel n : ℕ) (pending : Bytes)
      → peer.select n ≡ true
      → Answers peer (suc n) [] pending (receive_response peer enable_rtk fuel pending n)
  unfolding receive_response
  receive_response-Answers fuel n pending ready =
      choice (Answers peer (suc n) [] pending) (peer.select n) _ _
        (λ _. response_loop-Answers fuel (suc n) pending []) (λ not_ready. absurd (cc))
