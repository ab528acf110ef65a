-- ===== src/Sbf/Decoder.antt =====
-- What a stream of SBF frames means, whatever pieces it arrives in: the specification of
-- src/sbf/frame_sync.cpp.
pub mod Laws
use asterx_driver.Base.{ℕ, zero, suc, List, [], ◌∷◌, ◌≡◌, drop, Bytes}
use asterx_driver.Sbf.Wire.{Frame, Verdict, more, junk, whole, parse_frame}

-- Reading goes from the first bytes to the last: at the front a byte that begins no frame is
-- dropped, and a whole frame is emitted.
pub data Reads : Bytes → List Frame → Bytes → Type 0 where
  stay : {u v : Bytes} → u ≡ v → Reads u [] v
  skip :
      {b : ℕ} {u v : Bytes} {fs : List Frame}
      → parse_frame (b ∷ u) ≡ junk
      → Reads u fs v
      → Reads (b ∷ u) fs v
  emit :
      {u v : Bytes} {f : Frame} {fs : List Frame}
      → parse_frame u ≡ whole f
      → Reads (drop f.len u) fs v
      → Reads u (f ∷ fs) v

-- All frames of `u`, in order, and the bytes at its end that may yet begin a frame.
pub record Decodes (u : Bytes) (fs : List Frame) (rest : Bytes) : Type 0 where
  pub path : Reads u fs rest
  pub stuck : parse_frame rest ≡ more

-- The same as a function; a sequence shorter than the fuel is decoded to its end.
pub decode : ℕ → Bytes → List Frame × Bytes
decode zero u = ([], u)
decode (suc fuel) [] = ([], [])
decode (suc fuel) (b ∷ u) = elim (parse_frame (b ∷ u)) [
  | more ↦ ([], b ∷ u)
  | junk ↦ decode fuel u
  | whole f ↦ let r = decode fuel (drop f.len (b ∷ u)) in (f ∷ r.0, r.1)
]
