-- ===== src/Auth/Callback.antt =====
-- src/auth/callback.rs: the page that the OAuth redirect is answered with, and the text that is put
-- into it.
pub mod Escape
pub mod Laws
use Prim.Native.String.{◌++◌}
use uni_mail.Common.{ℕ, Bool, false, String, Option, none, some}
use uni_mail.Error.{Outcome, ok, err, panic, AppError, auth, to_string}
use uni_mail.Exec.{Exec, World, ◌>>=◌, pure, fail, attempt, crash}
use uni_mail.Host.{Host}
use uni_mail.Storage.Models.{Account}
use uni_mail.Text.{replace}
use uni_mail.Auth.Token.{TokenManager}
use uni_mail.Auth.Flow.{complete_flow}

pub record CallbackParams : Type 0 where
  pub code : Option String
  pub state : Option String
  pub error : Option String
  pub error_description : Option String

-- `escape_html`
unfoldable pub escape_html : String → String
unfolding replace
escape_html s =
    replace b'"' "&quot;" (replace b'>' "&gt;" (replace b'<' "&lt;" (replace b'&' "&amp;" s)))

abbrev detail : Option String → String
detail none = ""
detail (some d) = " — " ++ d

abbrev pub completed : Host → TokenManager → Option String → Option String → Exec AppError Account
completed host m (some code) (some state) = complete_flow host m code state
completed host m _ _ = fail (auth "missing code or state parameter in callback")

abbrev pub refused : Host → TokenManager → CallbackParams → Option String → Exec AppError Account
refused host m p (some error) =
    fail (auth ("Authorization failed: " ++ error ++ detail p.error_description))
refused host m p none = completed host m p.code p.state

-- `complete_callback`
unfoldable pub complete_callback : Host → TokenManager → CallbackParams → Exec AppError Account
complete_callback host m p = refused host m p p.error

-- A page: its status and the escaped text in it.
pub record Page : Type 0 where
  pub status : ℕ
  pub text : String

-- `success_response` and `error_response`, without the fixed markup around the text; a panic gives
-- no page.
unfoldable pub page : Outcome AppError Account → Exec AppError Page
unfolding escape_html to_string
page (ok account) = pure (record { status = 200; text = escape_html account.email_address })
page (err e) = pure (record { status = 400; text = escape_html (to_string e) })
page (panic m) = crash m

-- `CallbackState`: the slot is there in CLI mode, and holds the outcome once there is one; `done`
-- says whether the shutdown signal is still to be sent.
pub record CallbackState : Type 0 where
  pub slot : Option (Option (Outcome AppError Account))
  pub done : Bool

abbrev pub fill :
    Outcome AppError Account
    → Option (Option (Outcome AppError Account))
    → Option (Option (Outcome AppError Account))
fill r none = none
fill r (some _) = some (some r)

-- `handle_callback`: the outcome is stored before the shutdown is signalled.
unfoldable pub handle_callback :
    Host → TokenManager → CallbackState → CallbackParams → Exec AppError (Page × CallbackState)
unfolding page
handle_callback host m st p = do
  result ← attempt (complete_callback host m p)
  response ← page result
  pure (response, record { slot = fill result st.slot; done = false })

-- What `serve_callback_once` returns once the server has shut down.
unfoldable pub outcome : CallbackState → Outcome AppError Account
outcome st = elim st.slot [
  | some (some r) ↦ r
  | some none ↦ err (auth "callback completed without a result")
  | none ↦ err (auth "callback completed without a result")
]
