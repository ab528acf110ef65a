-- ===== src/Sbf/Decoder/Laws.antt =====
-- Decoding goes on where it stopped, has one result, and always has a result.
use mathlib.Core.Path.{subst, ap₂}
use asterx_driver.Base.{
  ℕ, zero, suc, ◌+◌, ◌-◌, ◌≤◌, ◌<◌, List, [], ◌∷◌, ◌++◌, ◌≡◌, refl, sym, ap, ◌∙◌, ◌≢◌, arith, drop,
  length, length-append, take-append, drop-append, length-drop, Bytes, le16,
}
use asterx_driver.Sbf.Wire.{Frame, Verdict, more, junk, whole, parse_frame, parse_fields}
use asterx_driver.Sbf.Decoder.{Reads, stay, skip, emit, Decodes, decode}

-- A verdict that is reached does not change when more bytes come.
parse_fields-append : (u w : Bytes) → parse_fields u ≢ more → parse_fields (u ++ w) ≡ parse_fields u
unfolding parse_fields
parse_fields-append (c0 ∷ c1 ∷ i0 ∷ i1 ∷ l0 ∷ l1 ∷ rest) w h =
    ground (arith, length-append rest w, take-append (le16 l0 l1 - 8) rest w)
parse_fields-append _ w h = absurd (h refl)

parse_frame-append : (u w : Bytes) → parse_frame u ≢ more → parse_frame (u ++ w) ≡ parse_frame u
unfolding parse_frame
parse_frame-append [] w h = absurd (h refl)
parse_frame-append (b ∷ []) w h = ground arith
parse_frame-append (b ∷ c ∷ u) w h = ground (arith, parse_fields-append u w)

-- A whole frame is as long as it says, and not empty.
parse_fields_len :
    (u : Bytes) (f : Frame) → parse_fields u ≡ whole f → (8 ≤ f.len) × (f.len ≤ length u + 2)
unfolding parse_fields
parse_fields_len (c0 ∷ c1 ∷ i0 ∷ i1 ∷ l0 ∷ l1 ∷ rest) f h = ground arith
parse_fields_len _ f h = cc

pub parse_frame_len :
    (u : Bytes) (f : Frame) → parse_frame u ≡ whole f → (8 ≤ f.len) × (f.len ≤ length u)
unfolding parse_frame
parse_frame_len [] f h = cc
parse_frame_len (b ∷ []) f h = ground arith
parse_frame_len (b ∷ c ∷ u) f h = ground (arith, parse_fields_len u f)

pub Reads-trans :
    {u v w : Bytes} {fs gs : List Frame} → Reads u fs v → Reads v gs w → Reads u (fs ++ gs) w
Reads-trans {w} {gs} (stay e) q = subst (λ t. Reads t gs w) (sym e) q
Reads-trans (skip j p) q = skip j (Reads-trans p q)
Reads-trans (emit j p) q = emit j (Reads-trans p q)

pub Reads-append :
    {u v : Bytes} {fs : List Frame} (w : Bytes) → Reads u fs v → Reads (u ++ w) fs (v ++ w)
Reads-append w (stay e) = stay (ap (λ t. t ++ w) e)
Reads-append w (skip {b} {u} j p) =
    skip (parse_frame-append (b ∷ u) w (λ e. cc) ∙ j) (Reads-append w p)
Reads-append w (emit {u} {v} {f} {fs} j p) = emit (parse_frame-append u w (λ e. cc) ∙ j) (
    subst (λ t. Reads t fs (v ++ w)) (sym (drop-append f.len u w (parse_frame_len u f j).1))
      (Reads-append w p))

whole-injective : {f g : Frame} → whole f ≡ whole g → f ≡ g
whole-injective e = cc

-- A second reading from the same bytes takes the same steps.
Reads-unique :
    {u r t : Bytes} {fs gs : List Frame}
    → Reads u fs r
    → parse_frame r ≡ more
    → Reads u gs t
    → parse_frame t ≡ more
    → (fs ≡ gs) × (r ≡ t)
Reads-unique (stay e) m (stay e') m' = (refl, sym e ∙ e')
Reads-unique (stay e) m (skip j q) m' = absurd (cc (ap parse_frame e))
Reads-unique (stay e) m (emit j q) m' = absurd (cc (ap parse_frame e))
Reads-unique (skip j p) m (stay e) m' = absurd (cc (ap parse_frame e))
Reads-unique (skip j p) m (skip j' q) m' = Reads-unique p m q m'
Reads-unique (skip j p) m (emit j' q) m' = cc
Reads-unique (emit j p) m (stay e) m' = absurd (cc (ap parse_frame e))
Reads-unique (emit j p) m (skip j' q) m' = cc
Reads-unique (emit {u} {v} {f} {fs} j p) m (emit {v = v'} {f = g} {fs = gs} j' q) m' =
    let same : f ≡ g = whole-injective (sym j ∙ j') in
    let r = Reads-unique p m (subst (λ (h : Frame). Reads (drop h.len u) gs v') (sym same) q) m' in
    (ap₂ ◌∷◌ same r.0, r.1)

-- The frames of a byte sequence, and what is left of it, are determined.
pub Decodes-unique :
    {u r t : Bytes} {fs gs : List Frame} → Decodes u fs r → Decodes u gs t → (fs ≡ gs) × (r ≡ t)
Decodes-unique d e = Reads-unique d.path d.stuck e.path e.stuck

-- To read `u ++ w` is to read `u`, and then what is left of it with `w` behind.
pub Decodes-append :
    {u r t : Bytes} {fs gs : List Frame} (w : Bytes)
    → Decodes u fs r
    → Decodes (r ++ w) gs t
    → Decodes (u ++ w) (fs ++ gs) t
Decodes-append w d e = record { path = Reads-trans (Reads-append w d.path) e.path; stuck = e.stuck }

-- The front of a non-empty sequence decides the next step of `decode`.
decode-Decodes_from :
    (fuel : ℕ) (b : ℕ) (u : Bytes) (v : Verdict)
    → parse_frame (b ∷ u) ≡ v
    → ((w : Bytes) → length w < fuel → Decodes w (decode fuel w).0 (decode fuel w).1)
    → length u < fuel
    → Decodes (b ∷ u) (decode (suc fuel) (b ∷ u)).0 (decode (suc fuel) (b ∷ u)).1
unfolding decode
decode-Decodes_from fuel b u more e ih lt = rw (e, decode) (record { path = stay refl; stuck = e })
decode-Decodes_from fuel b u junk e ih lt =
    let d = ih u lt in rw (e, decode) (record { path = skip e d.path; stuck = d.stuck })
decode-Decodes_from fuel b u (whole f) e ih lt =
    let n = parse_frame_len (b ∷ u) f e in
    let d = ih (drop f.len (b ∷ u)) (omega (arith, length-drop f.len (b ∷ u))) in
    rw (e, decode) (record { path = emit e d.path; stuck = d.stuck })

-- Every byte sequence is decoded, with fuel above its length.
pub decode-Decodes :
    (fuel : ℕ) (u : Bytes) → length u < fuel → Decodes u (decode fuel u).0 (decode fuel u).1
unfolding decode parse_frame
decode-Decodes zero u lt = absurd (omega arith)
decode-Decodes (suc fuel) [] lt = record { path = stay refl; stuck = refl }
decode-Decodes (suc fuel) (b ∷ u) lt =
    decode-Decodes_from fuel b u (parse_frame (b ∷ u)) refl (decode-Decodes fuel) (omega arith)

-- What is decoded of `u ++ w` begins with what is decoded of `u`.
pub Decodes-split :
    {u r t : Bytes} {fs hs : List Frame} (w : Bytes)
    → Decodes u fs r
    → Decodes (u ++ w) hs t
    → (gs : List Frame) × (hs ≡ fs ++ gs) × Decodes (r ++ w) gs t
Decodes-split {r} w d e =
    let next = decode-Decodes (suc (length (r ++ w))) (r ++ w) (omega arith) in
    let same = Decodes-unique e (Decodes-append w d next) in
    ((decode (suc (length (r ++ w))) (r ++ w)).0, same.0, rw (same.1) next)
