-- ===== src/Receiver/Valid.antt =====
-- src/receiver_config.cpp: which streams and settings the checks accept, as predicates.
use mathlib.Core.Path.{subst}
use asterx_driver.Base.{
  ℕ, ◌≤◌, Bool, true, false, not, ◌&&◌, ◌||◌, List, [], ◌∷◌, length, leb, Bytes, text, text_eq,
  &&_iff, ||_iff, text_eq_iff, ◌≡◌, ◌≢◌, ◌↔◌, ◌⊎◌, inl, inr, refl, arith,
}
use asterx_driver.Receiver.Settings.{
  Numbers, ReceiverSettings, SbfStream, ℤ, pos, negsuc, in_range, ConfigError, Result, ok, error,
  require, ◌>>=◌, ◌>>◌,
}
use asterx_driver.Receiver.Commands.{
  sbf_output_text, build_sbf_output_command, check_streams, equals_ci, lower_copy, is_empty,
  allowed, is_in, is_valid_sbf_interval, enforce_command_length, in_lever_range,
  validate_receiver_settings,
}

abbrev pub InRange : ℕ → ℕ → ℤ → Type 0
InRange lo hi z = (n : ℕ) × (z ≡ pos n) × (lo ≤ n) × (n ≤ hi)

-- Equal but for the case of the letters.
abbrev pub SameWord : Bytes → Bytes → Type 0
SameWord a b = lower_copy a ≡ lower_copy b

abbrev pub IsOneOf : Bytes → List Bytes → Type 0
IsOneOf s [] = ⊥
IsOneOf s (t ∷ ts) = (t ≡ s) ⊎ IsOneOf s ts

-- A stream that can be configured: its number, the port's, a block, an interval that the receiver
-- knows, and a command of at most 2000 characters.
abbrev pub ValidStream : SbfStream → ℤ → Type 0
ValidStream s ips_id =
    InRange 1 10 s.stream_id
    × (InRange 1 5 ips_id
        × ((s.blocks ≢ [])
            × (IsOneOf (lower_copy s.interval) allowed
                × (length (sbf_output_text s ips_id) ≤ 2000))))

abbrev pub ValidStreams : List SbfStream → ℤ → Type 0
ValidStreams [] ips_id = Unit
ValidStreams (s ∷ streams) ips_id = ValidStream s ips_id × ValidStreams streams ips_id

module _ {D : Type 0} (num : Numbers D) where
  abbrev pub InLeverRange : D → Type 0
  InLeverRange v = (num.le num.minus_hundred v ≡ true) × (num.le v num.hundred ≡ true)

  abbrev pub ValidSettings : ReceiverSettings D → Type 0
  ValidSettings settings =
      InRange 1 5 settings.ips_id
      × ((SameWord settings.imu_startup_data_mode (text "Boot")
            ⊎ SameWord settings.imu_startup_data_mode (text "GnssTimeKnown"))
          × (((SameWord settings.imu_orientation_mode (text "SensorDefault")
                  ⊎ SameWord settings.imu_orientation_mode (text "manual"))
                ⊎ SameWord settings.imu_orientation_mode (text "fixed"))
              × ((settings.ant_lever_arm_configured ≡ true)
                  × (((InLeverRange settings.ant_lever_arm_m.x
                          × InLeverRange settings.ant_lever_arm_m.y)
                        × InLeverRange settings.ant_lever_arm_m.z)
                      × ((SameWord settings.gnss_attitude_mode (text "none")
                            ⊎ SameWord settings.gnss_attitude_mode (text "MultiAntenna"))
                          × (InRange 0 60 settings.cn0_mask_dbhz
                              × ((settings.streams ≢ [])
                                  × ValidStreams settings.streams settings.ips_id)))))))

-- Equivalences, step by step along the tests.
×-iff : {P Q R S : Type 0} → (P ↔ R) → (Q ↔ S) → (P × Q) ↔ (R × S)
×-iff f g = ((λ h. (f.0 (h.0), g.0 (h.1))), λ h. (f.1 (h.0), g.1 (h.1)))

⊎-iff : {P Q R S : Type 0} → (P ↔ R) → (Q ↔ S) → (P ⊎ Q) ↔ (R ⊎ S)
⊎-iff f g = (
  (λ h. elim h [ inl p ↦ inl (f.0 p) | inr q ↦ inr (g.0 q) ]),
  λ h. elim h [ inl r ↦ inl (f.1 r) | inr s ↦ inr (g.1 s) ],
)

trans_iff : {P Q R : Type 0} → (P ↔ Q) → (Q ↔ R) → P ↔ R
trans_iff f g = ((λ p. g.0 (f.0 p)), λ r. f.1 (g.1 r))

both_iff :
    {P Q : Type 0} (a b : Bool) → ((a ≡ true) ↔ P) → ((b ≡ true) ↔ Q) → ((a && b) ≡ true) ↔ (P × Q)
both_iff a b f g = trans_iff (&&_iff a b) (×-iff f g)

either_iff :
    {P Q : Type 0} (a b : Bool) → ((a ≡ true) ↔ P) → ((b ≡ true) ↔ Q) → ((a || b) ≡ true) ↔ (P ⊎ Q)
either_iff a b f g = trans_iff (||_iff a b) (⊎-iff f g)

-- A check and what follows it.
require_iff :
    {P Q : Type 0} {B : Type 0} (b : Bool) (e : ConfigError) (k : Result B) (c : B)
    → ((b ≡ true) ↔ P)
    → ((k ≡ ok c) ↔ Q)
    → ((require b e >> k) ≡ ok c) ↔ (P × Q)
require_iff true e k c f g = ((λ h. (f.0 refl, g.0 h)), λ h. g.1 (h.1))
require_iff false e k c f g = ((λ h. absurd (cc)), λ h. absurd (let h' = f.1 (h.0) in cc))

>>=_iff :
    {A B : Type 0} (m : Result A) (k : A → Result B) {c : B}
    → ((m >>= k) ≡ ok c) ↔ ((a : A) × (m ≡ ok a) × (k a ≡ ok c))
>>=_iff (ok a) k =
    ((λ h. (a, refl, h)), λ (a', e, h). let e' : a' ≡ a = cc in subst (λ x. k x ≡ ok _) e' h)
>>=_iff (error e) k = ((λ h. absurd (cc)), λ (a', e', h). absurd (cc))

leb_iff : (a b : ℕ) → (leb a b ≡ true) ↔ (a ≤ b)
leb_iff a b = ground arith

range_iff : (lo hi : ℕ) (z : ℤ) → (in_range lo hi z ≡ true) ↔ InRange lo hi z
range_iff lo hi (pos n) =
    let bounds = both_iff (leb lo n) (leb n hi) (leb_iff lo n) (leb_iff n hi) in
    (
      (λ h. let b = bounds.0 h in (n, refl, b.0, b.1)),
      λ h.
          let e : h.0 ≡ n = let e' = h.1 in cc in
          bounds.1 (subst (λ m. (lo ≤ m) × (m ≤ hi)) e (h.2, h.3)),
    )
range_iff lo hi (negsuc n) = ((λ h. absurd (cc)), λ h. absurd (let e = h.1 in cc))

refl_iff : {P : Type 0} → P ↔ P
refl_iff = ((λ p. p), λ p. p)

word_iff : (a b : Bytes) → (equals_ci a b ≡ true) ↔ SameWord a b
word_iff a b = text_eq_iff (lower_copy a) (lower_copy b)

is_in_iff : (ts : List Bytes) (s : Bytes) → (is_in ts s ≡ true) ↔ IsOneOf s ts
is_in_iff [] s = ((λ h. absurd (cc)), λ h. absurd h)
is_in_iff (t ∷ ts) s = either_iff (text_eq t s) (is_in ts s) (text_eq_iff t s) (is_in_iff ts s)

nonempty_iff : {A : Type 0} (xs : List A) → (not (is_empty xs) ≡ true) ↔ (xs ≢ [])
nonempty_iff [] = ((λ h. absurd (cc)), λ h. absurd (h refl))
nonempty_iff (x ∷ xs) = ((λ h e. absurd (cc)), λ h. refl)

ok_iff : {A : Type 0} (a c : A) → (ok a ≡ ok c) ↔ (c ≡ a)
ok_iff a c = ((λ h. cc), λ h. cc)

-- `build_sbf_output_command` gives a command exactly for a valid stream, and it is the stream's.
pub build_sbf_output_command_iff :
    (s : SbfStream) (ips_id : ℤ) (cmd : Bytes)
    → (build_sbf_output_command s ips_id ≡ ok cmd)
      ↔ (ValidStream s ips_id × (cmd ≡ sbf_output_text s ips_id))
unfolding build_sbf_output_command is_valid_sbf_interval enforce_command_length
build_sbf_output_command_iff s ips_id cmd =
    trans_iff
      (require_iff _ _ _ cmd (range_iff 1 10 s.stream_id) (
        require_iff _ _ _ cmd (range_iff 1 5 ips_id) (
          require_iff _ _ _ cmd (nonempty_iff s.blocks) (
            require_iff _ _ _ cmd (is_in_iff allowed (lower_copy s.interval)) (
              require_iff _ _ _ cmd (leb_iff (length (sbf_output_text s ips_id)) 2000)
                (ok_iff (sbf_output_text s ips_id) cmd))))))
      (
        (λ h. ((h.0, (h.1.0, (h.1.1.0, (h.1.1.1.0, h.1.1.1.1.0)))), h.1.1.1.1.1)),
        λ h. (h.0.0, (h.0.1.0, (h.0.1.1.0, (h.0.1.1.1.0, (h.0.1.1.1.1, h.1))))),
      )

pub check_streams_iff :
    (streams : List SbfStream) (ips_id : ℤ)
    → (check_streams streams ips_id ≡ ok tt) ↔ ValidStreams streams ips_id
unfolding check_streams
check_streams_iff [] ips_id = ((λ h. tt), λ h. refl)
check_streams_iff (s ∷ streams) ips_id =
    trans_iff (>>=_iff (build_sbf_output_command s ips_id) (λ cmd. check_streams streams ips_id)) (
      (λ (cmd, built, rest). (
        ((build_sbf_output_command_iff s ips_id cmd).0 built).0,
        (check_streams_iff streams ips_id).0 rest,
      )),
      λ h. (
        sbf_output_text s ips_id,
        (build_sbf_output_command_iff s ips_id (sbf_output_text s ips_id)).1 (h.0, refl),
        (check_streams_iff streams ips_id).1 (h.1),
      ),
    )

module _ {D : Type 0} (num : Numbers D) where
  lever_iff : (v : D) → (in_lever_range num v ≡ true) ↔ InLeverRange num v
  unfolding in_lever_range
  lever_iff v = &&_iff (num.le num.minus_hundred v) (num.le v num.hundred)

  -- `validate_receiver_settings` accepts exactly the valid settings.
  pub validate_receiver_settings_iff :
      (settings : ReceiverSettings D)
      → (validate_receiver_settings num settings ≡ ok tt) ↔ ValidSettings num settings
  unfolding validate_receiver_settings
  validate_receiver_settings_iff settings =
      let startup = settings.imu_startup_data_mode in
      let orientation = settings.imu_orientation_mode in
      let arm = settings.ant_lever_arm_m in
      let attitude = settings.gnss_attitude_mode in
      require_iff _ _ _ tt (range_iff 1 5 settings.ips_id) (
        require_iff _ _ _ tt
          (either_iff _ _ (word_iff startup (text "Boot"))
            (word_iff startup (text "GnssTimeKnown")))
          (require_iff _ _ _ tt
            (either_iff _ _
              (either_iff _ _ (word_iff orientation (text "SensorDefault"))
                (word_iff orientation (text "manual")))
              (word_iff orientation (text "fixed")))
            (require_iff _ _ _ tt refl_iff (
              require_iff _ _ _ tt
                (both_iff _ _ (both_iff _ _ (lever_iff arm.x) (lever_iff arm.y)) (lever_iff arm.z))
                (require_iff _ _ _ tt
                  (either_iff _ _ (word_iff attitude (text "none"))
                    (word_iff attitude (text "MultiAntenna")))
                  (require_iff _ _ _ tt (range_iff 0 60 settings.cn0_mask_dbhz) (
                    require_iff _ _ _ tt (nonempty_iff settings.streams)
                      (check_streams_iff settings.streams settings.ips_id))))))))
