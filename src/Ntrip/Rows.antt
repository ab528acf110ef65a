-- ===== src/Ntrip/Rows.antt =====
-- src/ntrip/ins401_ntrip_client.cpp: the lines of a table and the mount points read from them.
use asterx_driver.Base.{
  ◌>>=◌, Bool, true, false, List, [], ◌∷◌, Option, none, some, Bytes, map, if◌then◌else◌, ◌⊎◌, inl,
  inr, ◌≡◌, refl, ap, ◌∙◌,
}
use asterx_driver.Receiver.Settings.{pos}
use asterx_driver.Ntrip.SourceTable.{
  MountPoint, Reader, text_at, number_at, is_stream_line, mount_point_of, parse_lines,
}

-- The lines of the table.
abbrev pub stream_lines : List Bytes → List Bytes
stream_lines [] = []
stream_lines (line ∷ lines) =
    let rest = stream_lines lines in if is_stream_line line then line ∷ rest else rest

-- What is there satisfies `P`.
abbrev IfSome : {A : Type 0} → (A → Type 0) → Option A → Type 0
IfSome P none = Unit
IfSome P (some a) = P a

bind-IfSome :
    {A B : Type 0} (Q : A → Type 0) (P : B → Type 0) (o : Option A) (k : A → Option B)
    → IfSome Q o
    → ((a : A) → Q a → IfSome P (k a))
    → IfSome P (o >>= k)
bind-IfSome Q P none k h hk = tt
bind-IfSome Q P (some a) k h hk = hk a h

any-IfSome : {A : Type 0} (o : Option A) → IfSome (λ _. Unit) o
any-IfSome none = tt
any-IfSome (some a) = tt

module _ {D : Type 0} (reader : Reader D) where
  abbrev pub name_of : Bytes → Bytes
  name_of line = text_at (reader.split_string line) 1

  abbrev pub Named : List Bytes → List (MountPoint D) → Type 0
  Named lines points = map (λ p. p.mount_point) points ≡ map name_of lines

  abbrev HasName : List Bytes → MountPoint D → Type 0
  HasName fields p = p.mount_point ≡ text_at fields 1

  mount_point_of-IfSome :
      (fields : List Bytes) → IfSome (HasName fields) (mount_point_of reader fields)
  mount_point_of-IfSome fields =
      bind-IfSome (λ _. Unit) (HasName fields) (number_at reader.stoi (pos 0) fields 5) _
        (any-IfSome _)
        λ carrier _.
          bind-IfSome (λ _. Unit) (HasName fields)
            (number_at reader.stod reader.zero_degrees fields 9) _ (any-IfSome _)
            λ latitude _.
              bind-IfSome (λ _. Unit) (HasName fields)
                (number_at reader.stod reader.zero_degrees fields 10) _ (any-IfSome _)
                λ longitude _. refl

  -- Some line has a field that is not the number it should be.
  abbrev pub Unreadable : List Bytes → Type 0
  Unreadable [] = ⊥
  Unreadable (line ∷ lines) =
      (mount_point_of reader (reader.split_string line) ≡ none) ⊎ Unreadable lines

  abbrev pub Parsed : List Bytes → Option (List (MountPoint D)) → Type 0
  Parsed lines none = Unreadable lines
  Parsed lines (some points) = Named lines points

  both-Parsed :
      (line : Bytes) (lines : List Bytes) (first : Option (MountPoint D))
      (rest : Option (List (MountPoint D)))
      → mount_point_of reader (reader.split_string line) ≡ first
      → IfSome (HasName (reader.split_string line)) first
      → Parsed lines rest
      → Parsed (line ∷ lines) (do point ← first; points ← rest; some (point ∷ points))
  both-Parsed line lines none rest e i h = inl e
  both-Parsed line lines (some point) none e i h = inr h
  both-Parsed line lines (some point) (some points) e i h =
      ap (λ x. x ∷ map (λ p. p.mount_point) points) i ∙ ap (◌∷◌ (name_of line)) h

  one_more :
      (b : Bool) (line : Bytes) (lines : List Bytes) (rest : Option (List (MountPoint D)))
      → Parsed lines rest
      → Parsed (if b then line ∷ lines else lines) (
          if b
          then (do
            point ← mount_point_of reader (reader.split_string line)
            points ← rest
            some (point ∷ points))
          else rest)
  one_more true line lines rest h =
      both-Parsed line lines (mount_point_of reader (reader.split_string line)) rest refl
        (mount_point_of-IfSome (reader.split_string line)) h
  one_more false line lines rest h = h

  pub parse_lines-Parsed :
      (lines : List Bytes) → Parsed (stream_lines lines) (parse_lines reader lines)
  unfolding parse_lines
  parse_lines-Parsed [] = refl
  parse_lines-Parsed (line ∷ lines) =
      one_more (is_stream_line line) line (stream_lines lines) (parse_lines reader lines)
        (parse_lines-Parsed lines)
