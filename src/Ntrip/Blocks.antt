-- ===== src/Ntrip/Blocks.antt =====
-- src/ntrip/ins401_ntrip_client.cpp: `ChunkRTCMData` gives every byte on, in blocks of 1024.
use mathlib.Core.List.{flatten, append_assoc, append-nil}
use asterx_driver.Base.{
  ℕ, zero, suc, ◌+◌, ◌≤◌, ◌<◌, List, [], ◌∷◌, ◌++◌, Bytes, length, length-append, length-take,
  length-drop, take, drop, take-append-drop, ltb, leb, leb→le, leb→gt, ltb→lt, choice, ◌≡◌, refl,
  sym, ap, ◌∙◌, arith,
}
use asterx_driver.Ntrip.Chunks.{
  Chunker, chunk_size, Cut, cut_loop, chunk_buffer, chunk_rtcm_data, chunk_all, piece_size,
}

abbrev pub AllOf : ℕ → List Bytes → Type 0
AllOf size [] = Unit
AllOf size (m ∷ ms) = (length m ≡ size) × AllOf size ms

pub record Cuts (size : ℕ) (b : Bytes) (cut : Cut) : Type 0 where
  pub whole : flatten cut.messages ++ cut.left ≡ b
  pub sizes : AllOf size cut.messages
  pub short : length cut.left < size

cut_loop-Cuts :
    (size fuel : ℕ) (b : Bytes) → 1 ≤ size → length b ≤ fuel → Cuts size b (cut_loop size fuel b)
unfolding cut_loop flatten
cut_loop-Cuts size zero b pos enough = record { whole = refl; sizes = tt; short = omega arith }
cut_loop-Cuts size (suc fuel) b pos enough =
    choice (Cuts size b) (leb size (length b)) _ _
      (λ h.
        let le = leb→le size (length b) h in
        let next = cut_loop-Cuts size fuel (drop size b) pos (omega (arith, length-drop size b)) in
        record {
          whole =
              append_assoc (take size b) _ _
              ∙ ap (λ s. take size b ++ s) next.whole
              ∙ take-append-drop size b;
          sizes = (omega (arith, length-take size b), next.sizes);
          short = next.short;
        })
      (λ h. record { whole = refl; sizes = tt; short = leb→gt size (length b) h })

-- What came out and what is kept is what was kept before and came in.
pub record Passes (s : Chunker) (piece : Bytes) (r : List Bytes × Chunker) : Type 0 where
  pub whole : flatten (r.0) ++ (r.1).rtcm_buffer ≡ s.rtcm_buffer ++ piece
  pub sizes : AllOf chunk_size (r.0)
  pub short : length (r.1).rtcm_buffer < chunk_size
  pub limit : (r.1).max_buffer_size ≡ s.max_buffer_size

chunk_buffer-Passes :
    (s : Chunker) (piece : Bytes) → Passes s piece (chunk_buffer (s.rtcm_buffer ++ piece) s)
chunk_buffer-Passes s piece =
    let all = s.rtcm_buffer ++ piece in
    let cut = cut_loop-Cuts chunk_size (length all) all (omega arith) (omega arith) in
    record { whole = cut.whole; sizes = cut.sizes; short = cut.short; limit = refl }

pub chunk_rtcm_data-Passes :
    (s : Chunker) (piece : Bytes)
    → length s.rtcm_buffer < chunk_size
    → length s.rtcm_buffer + length piece ≤ s.max_buffer_size
    → Passes s piece (chunk_rtcm_data piece s)
unfolding chunk_rtcm_data flatten
chunk_rtcm_data-Passes s [] h fits = record {
  whole = sym (append-nil s.rtcm_buffer);
  sizes = tt;
  short = h;
  limit = refl;
}
chunk_rtcm_data-Passes s (b ∷ piece) h fits =
    let all = b ∷ piece in
    choice (λ (s' : Chunker). Passes s all (chunk_buffer (s'.rtcm_buffer ++ all) s'))
      (ltb s.max_buffer_size (length s.rtcm_buffer + length all)) _ _
      (λ over.
        absurd (
          let gt = ltb→lt s.max_buffer_size (length s.rtcm_buffer + length all) over in
          omega arith))
      (λ _. chunk_buffer-Passes s all)

abbrev pub AtMost : ℕ → List Bytes → Type 0
AtMost size [] = Unit
AtMost size (piece ∷ pieces) = (length piece ≤ size) × AtMost size pieces

pub AllOf-append :
    (size : ℕ) (ms ns : List Bytes) → AllOf size ms → AllOf size ns → AllOf size (ms ++ ns)
AllOf-append size [] ns h h' = h'
AllOf-append size (m ∷ ms) ns (e, h) h' = (e, AllOf-append size ms ns h h')

pub flatten-append : (ms ns : List Bytes) → flatten (ms ++ ns) ≡ flatten ms ++ flatten ns
unfolding flatten
flatten-append [] ns = refl
flatten-append (m ∷ ms) ns =
    ap (λ s. m ++ s) (flatten-append ms ns) ∙ sym (append_assoc m (flatten ms) (flatten ns))

-- Pieces of at most 65536 bytes, with a limit that has room for one of them behind a part of a block,
-- come out as blocks of 1024 bytes, in order and without a loss; less than a block stays in the
-- buffer.
pub chunk_all-Passes :
    (s : Chunker) (pieces : List Bytes)
    → length s.rtcm_buffer < chunk_size
    → chunk_size + piece_size ≤ s.max_buffer_size
    → AtMost piece_size pieces
    → Passes s (flatten pieces) (chunk_all pieces s)
unfolding chunk_all flatten
chunk_all-Passes s [] h room sizes = record {
  whole = sym (append-nil s.rtcm_buffer);
  sizes = tt;
  short = h;
  limit = refl;
}
chunk_all-Passes s (piece ∷ pieces) h room (le, les) =
    let r = chunk_rtcm_data piece s in
    let first = chunk_rtcm_data-Passes s piece h (omega arith) in
    let others = chunk_all-Passes (r.1) pieces first.short (omega (arith, first.limit)) les in
    let ms = (chunk_all pieces (r.1)).0 in
    let left = ((chunk_all pieces (r.1)).1).rtcm_buffer in
    record {
      whole =
          ap (λ x. x ++ left) (flatten-append (r.0) ms)
          ∙ append_assoc (flatten (r.0)) (flatten ms) left
          ∙ ap (λ x. flatten (r.0) ++ x) others.whole
          ∙ sym (append_assoc (flatten (r.0)) (r.1).rtcm_buffer (flatten pieces))
          ∙ ap (λ x. x ++ flatten pieces) first.whole
          ∙ append_assoc s.rtcm_buffer piece (flatten pieces);
      sizes = AllOf-append chunk_size (r.0) ms first.sizes others.sizes;
      short = others.short;
      limit = others.limit ∙ first.limit;
    }

append_inj : (xs ys s t : Bytes) → length xs ≡ length ys → xs ++ s ≡ ys ++ t → (xs ≡ ys) × (s ≡ t)
append_inj [] [] s t h e = (refl, e)
append_inj [] (y ∷ ys) s t h e = absurd (omega arith)
append_inj (x ∷ xs) [] s t h e = absurd (omega arith)
append_inj (x ∷ xs) (y ∷ ys) s t h e =
    let hx : x ≡ y = cc in
    let hs : xs ++ s ≡ ys ++ t = cc in
    let (e1, e2) = append_inj xs ys s t (omega arith) hs in
    (ap (λ z. z ∷ xs) hx ∙ ap (◌∷◌ y) e1, e2)

-- There is one way to cut bytes into blocks.
blocks_unique :
    (size : ℕ) (ms ns : List Bytes) (r t : Bytes)
    → AllOf size ms
    → AllOf size ns
    → length r < size
    → length t < size
    → flatten ms ++ r ≡ flatten ns ++ t
    → (ms ≡ ns) × (r ≡ t)
unfolding flatten
blocks_unique size [] [] r t hm hn hr ht e = (refl, e)
blocks_unique size [] (n ∷ ns) r t hm (len, hn) hr ht e = absurd (
    let l : length r ≡ length ((n ++ flatten ns) ++ t) = ap length e in
    omega (arith, l, len, length-append (n ++ flatten ns) t, length-append n (flatten ns)))
blocks_unique size (m ∷ ms) [] r t (len, hm) hn hr ht e = absurd (
    let l : length ((m ++ flatten ms) ++ r) ≡ length t = ap length e in
    omega (arith, l, len, length-append (m ++ flatten ms) r, length-append m (flatten ms)))
blocks_unique size (m ∷ ms) (n ∷ ns) r t (lm, hm) (ln, hn) hr ht e =
    let (e1, e2) =
      append_inj m n (flatten ms ++ r) (flatten ns ++ t) (lm ∙ sym ln)
        (sym (append_assoc m (flatten ms) r) ∙ e ∙ append_assoc n (flatten ns) t) in
    let (e3, e4) = blocks_unique size ms ns r t hm hn hr ht e2 in
    (ap (λ z. z ∷ ms) e1 ∙ ap (◌∷◌ n) e3, e4)

-- However the same bytes are divided into pieces of at most 65536 bytes, the same blocks come out and
-- the same bytes stay, where the limit has room for a piece behind a part of a block.
pub chunk_all_pieces :
    (s : Chunker) (pieces others : List Bytes)
    → length s.rtcm_buffer < chunk_size
    → chunk_size + piece_size ≤ s.max_buffer_size
    → AtMost piece_size pieces
    → AtMost piece_size others
    → flatten pieces ≡ flatten others
    → ((chunk_all pieces s).0 ≡ (chunk_all others s).0)
      × (((chunk_all pieces s).1).rtcm_buffer ≡ ((chunk_all others s).1).rtcm_buffer)
chunk_all_pieces s pieces others h room les les' e =
    let a = chunk_all-Passes s pieces h room les in
    let b = chunk_all-Passes s others h room les' in
    blocks_unique chunk_size _ _ _ _ a.sizes b.sizes a.short b.short
      (a.whole ∙ ap (λ x. s.rtcm_buffer ++ x) e ∙ sym b.whole)
