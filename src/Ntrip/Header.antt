-- ===== src/Ntrip/Header.antt =====
-- src/ntrip/ins401_ntrip_client.cpp: where the header of a response ends.
use mathlib.Core.List.{append_assoc}
use asterx_driver.Base.{
  ℕ, suc, ◌-◌, Bool, true, false, ◌||◌, [], ◌∷◌, ◌++◌, Option, none, some, Bytes, text, length,
  length-append, take, contains, strip_prefix, after_first, ◌==◌, ==_iff, choice, if_true, ||_iff,
  inl, inr, ◌≡◌, refl, sym, ap, ◌∙◌, arith,
}
use asterx_driver.Ntrip.Request.{header_end, behind, header_part, is_accepted}

-- The response has its first empty line behind `front`, and `body` behind that line.
abbrev pub Splits : Bytes → Bytes → Bytes → Type 0
Splits response front body =
    (front ++ (header_end ++ body) ≡ response)
    × (contains header_end (front ++ text "\r\n\r") ≡ false)

strip_prefix-some : (marker s rest : Bytes) → strip_prefix marker s ≡ some rest → marker ++ rest ≡ s
strip_prefix-some [] s rest = λ h. cc
strip_prefix-some (d ∷ t) [] rest = λ h. absurd (cc)
strip_prefix-some (d ∷ t) (c ∷ s) rest =
    choice (λ (o : Option Bytes). o ≡ some rest → d ∷ (t ++ rest) ≡ c ∷ s) (c == d) _ _
      (λ e h.
        ap (λ x. x ∷ (t ++ rest)) (sym ((==_iff c d).0 e))
        ∙ ap (◌∷◌ c) (strip_prefix-some t s rest h))
      (λ e h. absurd (cc))

strip_prefix-append : (marker rest : Bytes) → strip_prefix marker (marker ++ rest) ≡ some rest
strip_prefix-append [] rest = refl
strip_prefix-append (d ∷ t) rest =
    if_true (strip_prefix t (t ++ rest)) none ((==_iff d d).1 refl) ∙ strip_prefix-append t rest

-- A marker that a part of the text begins with is one that the text begins with.
no_prefix :
    (marker s more : Bytes) (o : Option Bytes)
    → strip_prefix marker (s ++ more) ≡ none
    → strip_prefix marker s ≡ o
    → o ≡ none
no_prefix marker s more none h e = refl
no_prefix marker s more (some r) h e = absurd (
    let split : marker ++ (r ++ more) ≡ s ++ more =
      sym (append_assoc marker r more) ∙ ap (λ x. x ++ more) (strip_prefix-some marker s r e) in
    let found : strip_prefix marker (s ++ more) ≡ some (r ++ more) =
      ap (strip_prefix marker) (sym split) ∙ strip_prefix-append marker (r ++ more) in
    cc)

-- The marker is not found in front if it is neither there nor later.
not_found :
    (marker s : Bytes) (o later : Option Bytes)
    → o ≡ none
    → elim later [ some _ ↦ true | none ↦ false ] ≡ false
    → let either : Option Bytes = elim o [ some r ↦ some r | none ↦ later ] in
      elim either [ some _ ↦ true | none ↦ false ] ≡ false
not_found marker s none later e h = h
not_found marker s (some r) later e h = absurd (cc)

Splits-here_or_later :
    (c : ℕ) (s rest : Bytes) (o later : Option Bytes)
    → strip_prefix header_end (c ∷ s) ≡ o
    → (later ≡ some rest → (front : Bytes) × Splits s front rest)
    → elim o [ some r ↦ some r | none ↦ later ] ≡ some rest
    → (front : Bytes) × Splits (c ∷ s) front rest
Splits-here_or_later c s rest (some r) later e h e' =
    ([], (strip_prefix-some header_end (c ∷ s) rest (e ∙ e'), refl))
Splits-here_or_later c s rest none later e h e' =
    let (front, (split, first)) = h e' in
    let all : (front ++ text "\r\n\r") ++ (b'\n' ∷ rest) ≡ s =
      append_assoc front (text "\r\n\r") (b'\n' ∷ rest) ∙ split in
    let absent : strip_prefix header_end ((c ∷ (front ++ text "\r\n\r")) ++ (b'\n' ∷ rest)) ≡ none =
      ap (λ x. strip_prefix header_end (c ∷ x)) all ∙ e in
    (
      c ∷ front,
      (
        ap (◌∷◌ c) split,
        not_found header_end (front ++ text "\r\n\r") _ _
            (no_prefix header_end (c ∷ (front ++ text "\r\n\r")) (b'\n' ∷ rest) _ absent refl)
            first,
      ),
    )

after_first-Splits :
    (s rest : Bytes) → after_first header_end s ≡ some rest → (front : Bytes) × Splits s front rest
after_first-Splits [] rest h = absurd (cc)
after_first-Splits (c ∷ s) rest h =
    Splits-here_or_later c s rest (strip_prefix header_end (c ∷ s)) (after_first header_end s) refl
      (after_first-Splits s rest) h

take_front : (xs ys : Bytes) → take (length (xs ++ ys) - length ys) (xs ++ ys) ≡ xs
take_front [] ys = ap (λ n. take n ys) (let e : length ys - length ys ≡ 0 = omega arith in e)
take_front (x ∷ xs) ys =
    ap (λ n. take n (x ∷ (xs ++ ys)))
      (let e : suc (length (xs ++ ys)) - length ys ≡ suc (length (xs ++ ys) - length ys) =
          omega (arith, length-append xs ys) in
        e)
    ∙ ap (◌∷◌ x) (take_front xs ys)

-- The header as the code takes it, and what is behind it.
pub record HasHeader (response : Bytes) : Type 0 where
  pub front : Bytes
  pub body : Bytes
  pub splits : Splits response front body
  pub header : header_part response ≡ front ++ header_end
  pub rest : behind response ≡ body

found_header :
    (response : Bytes) (o : Option Bytes)
    → after_first header_end response ≡ o
    → elim o [ some _ ↦ true | none ↦ false ] ≡ true
    → HasHeader response
found_header response none e h = absurd (cc)
found_header response (some rest) e h =
    let (front, (split, first)) = after_first-Splits response rest e in
    let b : behind response ≡ rest = ap (λ o. elim o [ some r ↦ r | none ↦ [] ]) e in
    let split' : (front ++ header_end) ++ rest ≡ response =
      append_assoc front header_end rest ∙ split in
    record {
      front = front;
      body = rest;
      splits = (split, first);
      header =
          ap (λ r. take (length response - length r) response) b
          ∙ ap (λ s. take (length s - length rest) s) (sym split')
          ∙ take_front (front ++ header_end) rest;
      rest = b;
    }

pub contains-HasHeader :
    (response : Bytes) → contains header_end response ≡ true → HasHeader response
contains-HasHeader response h = found_header response (after_first header_end response) refl h

-- A text that is contained stands between two others.
abbrev pub Between : Bytes → Bytes → Type 0
Between marker s = (before : Bytes) × (after : Bytes) × (before ++ (marker ++ after) ≡ s)

Between-here_or_later :
    (marker : Bytes) (c : ℕ) (s : Bytes) (o later : Option Bytes)
    → strip_prefix marker (c ∷ s) ≡ o
    → (elim later [ some _ ↦ true | none ↦ false ] ≡ true → Between marker s)
    → (let either : Option Bytes = elim o [ some r ↦ some r | none ↦ later ] in
        elim either [ some _ ↦ true | none ↦ false ] ≡ true)
    → Between marker (c ∷ s)
Between-here_or_later marker c s (some r) later e h e' =
    ([], r, strip_prefix-some marker (c ∷ s) r e)
Between-here_or_later marker c s none later e h e' =
    let (before, after, split) = h e' in (c ∷ before, after, ap (◌∷◌ c) split)

Between-nothing :
    (marker : Bytes) (o : Option Bytes)
    → strip_prefix marker [] ≡ o
    → elim o [ some _ ↦ true | none ↦ false ] ≡ true
    → Between marker []
Between-nothing marker none e h = absurd (cc)
Between-nothing marker (some r) e h = ([], r, strip_prefix-some marker [] r e)

pub contains-Between : (marker s : Bytes) → contains marker s ≡ true → Between marker s
contains-Between marker [] h = Between-nothing marker (strip_prefix marker []) refl h
contains-Between marker (c ∷ s) h =
    Between-here_or_later marker c s (strip_prefix marker (c ∷ s)) (after_first marker s) refl
      (contains-Between marker s) h

-- The status that `ReceiveResponse` looks for.
pub accepted-Between : (header : Bytes) → is_accepted header ≡ true → Between (text "200 OK") header
accepted-Between header h =
    elim ((||_iff (contains (text "200 OK") header) (contains (text "ICY 200 OK") header)).0 h) [
      | inl e ↦ contains-Between (text "200 OK") header e
      | inr e ↦
          let (before, after, split) = contains-Between (text "ICY 200 OK") header e in
          (
            before ++ text "ICY ",
            after,
            append_assoc before (text "ICY ") (text "200 OK" ++ after) ∙ split,
          )
    ]

or_false : (a b : Bool) → (a || b) ≡ false → a ≡ false
or_false true b h = h
or_false false b h = refl

pub not_accepted :
    (header : Bytes) → is_accepted header ≡ false → contains (text "200 OK") header ≡ false
not_accepted header h = or_false (contains (text "200 OK") header) _ h
