-- ===== src/Base/TextLaws.antt =====
-- Boolean connectives on known values; the Boolean comparison of texts is equality.
use mathlib.Core.Path.{◌≡◌, refl, sym, ap, ◌∙◌}
use mathlib.Core.Bool.{Bool, true, false, not, ◌&&◌, ◌||◌}
use mathlib.Core.List.{[], ◌∷◌}
use mathlib.Core.Logic.{◌↔◌, ◌⊎◌, inl, inr}
use asterx_driver.Base.Tests.{◌==◌, ==_iff}
use asterx_driver.Base.Words.{Bytes}
use asterx_driver.Base.Text.{text_eq}

pub &&_iff : (a b : Bool) → ((a && b) ≡ true) ↔ ((a ≡ true) × (b ≡ true))
&&_iff true b = ((λ h. (refl, h)), λ h. h.1)
&&_iff false b = ((λ h. absurd (cc)), λ h. h.0)

pub ||_iff : (a b : Bool) → ((a || b) ≡ true) ↔ ((a ≡ true) ⊎ (b ≡ true))
||_iff true b = ((λ h. inl refl), λ h. refl)
||_iff false b = (inr, λ h. elim h [ inl e ↦ absurd (cc) | inr e ↦ e ])

pub not_iff : (b : Bool) → (not b ≡ true) ↔ (b ≡ false)
not_iff true = ((λ h. absurd (cc)), λ h. absurd (cc))
not_iff false = ((λ h. refl), λ h. refl)

text_eq_sound : (s t : Bytes) → text_eq s t ≡ true → s ≡ t
text_eq_sound [] [] h = refl
text_eq_sound [] (d ∷ t) h = absurd (cc)
text_eq_sound (c ∷ s) [] h = absurd (cc)
text_eq_sound (c ∷ s) (d ∷ t) h =
    let both = (&&_iff (c == d) (text_eq s t)).0 h in
    ap (λ x. x ∷ s) ((==_iff c d).0 (both.0)) ∙ ap (◌∷◌ d) (text_eq_sound s t (both.1))

text_eq_refl : (s : Bytes) → text_eq s s ≡ true
text_eq_refl [] = refl
text_eq_refl (c ∷ s) = (&&_iff (c == c) (text_eq s s)).1 ((==_iff c c).1 refl, text_eq_refl s)

pub text_eq_iff : (s t : Bytes) → (text_eq s t ≡ true) ↔ (s ≡ t)
text_eq_iff s t = (text_eq_sound s t, λ e. ap (text_eq s) (sym e) ∙ text_eq_refl s)
