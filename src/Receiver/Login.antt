-- ===== src/Receiver/Login.antt =====
-- src/receiver_config.cpp: what `login` sends.
use asterx_driver.Base.{ℕ, [], ◌∷◌, not, text, contains, Bytes, sym, ◌∙◌, ◌∙◌}
use mathlib.Core.List.{append-nil}
use asterx_driver.Receiver.Settings.{require, refused}
use asterx_driver.Receiver.Link.{Link, InStep, Wire, read_reply}
use asterx_driver.Receiver.Sending.{then-Sends, read_reply-Settled, settle_sent, SendsFrom-all}
use asterx_driver.Receiver.Session.{login, login_command}
use asterx_driver.Receiver.Script.{SendsFrom, Sends, >>=-Sends, check-Sends_last}

module _ {S : Type 0} (link : Link S) (base : Bytes) (timeout : ℕ) where
  read_reply-Sends : Sends link base (read_reply link timeout) []
  unfolding Sends
  read_reply-Sends w i =
      SendsFrom-all link base w [] (read_reply link timeout w)
        (settle_sent w.sent (link.read_until (text ">") timeout w.conn) ∙ sym (append-nil w.sent))
        (read_reply-Settled link base timeout w i)

  login-Sends :
      (user password : Bytes)
      → Sends link base (login link timeout user password) (login_command user password ∷ [])
  unfolding login
  login-Sends user password =
      >>=-Sends link base [] _ (read_reply link timeout) _ read_reply-Sends λ banner.
        then-Sends link base timeout _ [] _
          λ reply. check-Sends_last link base (require (not (contains (text "$R?") reply)) refused)

  -- `login` hands the login command over once and nothing else; if it throws, it may have handed
  -- over nothing. If before it the connection has put out `base` and the texts handed over, then
  -- after it too, unless the connection failed: then a first part of them.
  pub login-SendsFrom :
      (user password : Bytes) (w : Wire S)
      → InStep link base w
      → SendsFrom link base w
          (login_command user password ∷ [])
          (login link timeout user password w)
  unfolding Sends
  login-SendsFrom user password = login-Sends user password
