-- ===== src/Receiver/Script.antt =====
-- src/receiver_config.cpp: methods that send a list of commands, one after the other.
use mathlib.Core.List.{append_assoc, append-nil, flatten}
use asterx_driver.Base.{ℕ, zero, suc, ◌+◌, List, [], ◌∷◌, ◌++◌, map, Bytes, ◌≡◌, refl, sym, ap, ◌∙◌}
use asterx_driver.Receiver.Settings.{Result, ok, error}
use asterx_driver.Receiver.Link.{
  Link, Wire, M, End, returned, thrown, Failure, tcp, config, ◌>>=◌, after, done, check, InStep,
}
use asterx_driver.Receiver.Session.{line, clear_command}

-- The commands that clear `left` streams, from `stream_id` on.
abbrev pub clear_script : ℕ → ℕ → List Bytes
clear_script zero stream_id = []
clear_script (suc left) stream_id = clear_command stream_id ∷ clear_script left (stream_id + 1)

pub map-append {ℓ κ} :
    {A : Type ℓ} {B : Type κ} (f : A → B) (xs ys : List A) → map f (xs ++ ys) ≡ map f xs ++ map f ys
map-append f [] ys = refl
map-append f (x ∷ xs) ys = ap (◌∷◌ (f x)) (map-append f xs ys)

pub sent_append :
    (before : List Bytes) (cs ds : List Bytes) {between after_all : List Bytes}
    → between ≡ before ++ map line cs
    → after_all ≡ between ++ map line ds
    → after_all ≡ before ++ map line (cs ++ ds)
sent_append before cs ds e e' =
    e'
    ∙ ap (λ s. s ++ map line ds) e
    ∙ append_assoc before (map line cs) (map line ds)
    ∙ ap (λ s. before ++ s) (sym (map-append line cs ds))

module _ {S : Type 0} (link : Link S) (base : Bytes) where
  -- After a failed operation a first part of the texts that were handed over is put out.
  abbrev pub Broken : Failure → Wire S → Type 0
  Broken tcp w =
      (begun : Bytes) × (rest : Bytes) × (begun ++ rest ≡ flatten w.sent)
      × (link.output w.conn ≡ base ++ begun)
  Broken (config e) w = InStep link base w

  abbrev pub Settled {ℓ} : {A : Type ℓ} → End S A → Type 0
  Settled (returned a w) = InStep link base w
  Settled (thrown e w) = Broken e w

  -- What was handed to the connection since `w`: all the commands, or, if the method threw, some of
  -- the first of them. All of it is put out, unless the connection failed.
  abbrev pub SendsFrom {ℓ} : {A : Type ℓ} → Wire S → List Bytes → End S A → Type 0
  SendsFrom w cmds (returned a w') = (w'.sent ≡ w.sent ++ map line cmds) × InStep link base w'
  SendsFrom w cmds (thrown e w') =
      (begun : List Bytes) × (rest : List Bytes) × (begun ++ rest ≡ cmds)
      × (w'.sent ≡ w.sent ++ map line begun)
      × Broken e w'

  unfoldable pub Sends : {A : Type 0} → M S A → List Bytes → Type 0
  Sends m cmds = (w : Wire S) → InStep link base w → SendsFrom w cmds (m w)

  SendsFrom-append {ℓ} :
      {A : Type ℓ} (w w' : Wire S) (cs ds : List Bytes) (e : End S A)
      → w'.sent ≡ w.sent ++ map line cs
      → SendsFrom w' ds e
      → SendsFrom w (cs ++ ds) e
  SendsFrom-append w w' cs ds (returned a w'') h (h', i) = (sent_append w.sent cs ds h h', i)
  SendsFrom-append w w' cs ds (thrown e w'') h (begun, rest, split, h', b) = (
    cs ++ begun,
    rest,
    append_assoc cs begun rest ∙ ap (λ s. cs ++ s) split,
    sent_append w.sent cs begun h h',
    b,
  )

  -- One method after another sends the one's commands and then the other's.
  after-SendsFrom :
      {A B : Type 0} (w : Wire S) (cs ds : List Bytes) (e : End S A) (k : A → M S B)
      → SendsFrom w cs e
      → ((a : A) → Sends (k a) ds)
      → SendsFrom w (cs ++ ds) (after e k)
  unfolding Sends
  after-SendsFrom w cs ds (returned a w') k (h, i) hk =
      SendsFrom-append w w' cs ds (k a w') h (hk a w' i)
  after-SendsFrom w cs ds (thrown e w') k (begun, rest, split, h, b) hk =
      (begun, rest ++ ds, sym (append_assoc begun rest ds) ∙ ap (λ s. s ++ ds) split, h, b)

  pub >>=-Sends :
      {A B : Type 0} (cs ds : List Bytes) (m : M S A) (k : A → M S B)
      → Sends m cs
      → ((a : A) → Sends (k a) ds)
      → Sends (m >>= k) (cs ++ ds)
  unfolding Sends
  >>=-Sends cs ds m k h hk w i = after-SendsFrom w cs ds (m w) k (h w i) hk

  pub done-Sends : Sends done []
  unfolding Sends
  done-Sends w i = (sym (append-nil w.sent), i)

  -- A check sends nothing, and what follows it may rely on it.
  pub check-Sends :
      {A B : Type 0} (r : Result A) (k : A → M S B) (cs : List Bytes)
      → ((a : A) → r ≡ ok a → Sends (k a) cs)
      → Sends (check r >>= k) cs
  unfolding Sends
  check-Sends (ok a) k cs h w i = h a refl w i
  check-Sends (error e) k cs h w i = ([], cs, refl, sym (append-nil w.sent), i)

  -- A check at the end.
  pub check-Sends_last : {A : Type 0} (r : Result A) → Sends (check r) []
  unfolding Sends
  check-Sends_last (ok a) w i = (sym (append-nil w.sent), i)
  check-Sends_last (error e) w i = ([], [], refl, sym (append-nil w.sent), i)
