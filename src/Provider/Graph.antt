-- ===== src/Provider/Graph.antt =====
-- src/provider/graph.rs: mail over Microsoft Graph. serde's reading of a message and the url crate
-- are parameters.
pub mod Consistency
pub mod Returns
pub mod Retry
pub mod Message
pub mod Profile
use Prim.Native.String
use Prim.Native.String.{[], ◌∷◌}
use uni_mail.Common.{
  ℕ, zero, suc, String, Bool, true, not, ◌&&◌, Option, none, some, List, leb, ltb, eqb, ◌==◌,
  if◌then◌else◌,
}
use mathlib.Core.Option
use uni_mail.Error.{Outcome, ok, err, map_err, AppError, provider, config, invalid_request}
use uni_mail.Exec.{Exec, ◌>>=◌, ◌>>◌, pure, fail, lift, or_error, request}
use uni_mail.Host.{Host, Method, get_method, post_method, Response, graph}
use uni_mail.Json.{
  Value, Members, Elements, object, array, text, flag, no_member, member, no_element, element,
}
use uni_mail.Json
use uni_mail.Storage.Models.{Account}
use uni_mail.Provider.{Email, EmailProvider}
use uni_mail.Auth.Token.{TokenManager, get_access_token, refresh_account}
use uni_mail.Text.{trim, replace}
use mathlib.Core.List.{[], ◌∷◌}
use Message.{GraphCodec, GraphMessage, to_email, prepend}

-- `MicrosoftGraph`, with the code of other crates that it calls
pub record MicrosoftGraph : Type 0 where
  pub base_url : String
  pub tokens : TokenManager
  pub codec : GraphCodec
  pub open codec use *

-- `MESSAGE_SELECT`
abbrev pub message_select : String
message_select = "id,subject,from,toRecipients,bodyPreview,receivedDateTime,isRead"

-- `status.is_success()`
abbrev pub is_success : ℕ → Bool
is_success status = leb 200 status && ltb status 300

-- `body.chars().take(n).collect()`
unfoldable pub take_chars : ℕ → String → String
take_chars zero s = []
take_chars (suc n) [] = []
take_chars (suc n) (c ∷ s) = c ∷ take_chars n s

abbrev pub and_then {ℓ κ} : {A : Type ℓ} {B : Type κ} → Option A → (A → Option B) → Option B
and_then none f = none
and_then (some a) f = f a

abbrev parsed : Outcome String Value → Option Value
parsed (ok json) = some json
parsed _ = none

-- `graph_error_message`
unfoldable pub graph_error_message : Host → String → String
graph_error_message host body =
    Option.get_or
      (and_then (parsed (host.parse_json body)) (λ json.
        and_then (Json.get json "error") (λ e. and_then (Json.get e "message") Json.as_str)))
      (take_chars 300 body)

abbrev pub invalid_url : String → AppError
invalid_url e = config (String.◌++◌ "invalid URL: " e)

module _ (host : Host) (g : MicrosoftGraph) where
  -- `send`
  unfoldable pub send : Method → String → String → Option Value → Exec AppError Response
  send method url token body = do
    answer ← request (graph method url token body) (λ n. host.send n (graph method url token body))
    lift (map_err provider answer)

  -- The second half of `send_authorized`: one retry, after a refresh, of a request that was refused.
  unfoldable pub retry_unauthorized :
      Account → Method → String → Option Value → Response → Exec AppError Response
  retry_unauthorized account method url body response =
      if eqb response.status 401
      then (do
        refresh_account host g.tokens account.id
        token ← get_access_token host g.tokens account.id
        send method url token body)
      else pure response

  -- `send_authorized`
  unfoldable pub send_authorized : Account → Method → String → Option Value → Exec AppError Response
  send_authorized account method url body = do
    token ← get_access_token host g.tokens account.id
    response ← send method url token body
    retry_unauthorized account method url body response

  -- `to_json`
  unfoldable pub to_json : Response → Exec AppError Value
  to_json response =
      let body = Option.get_or response.text "" in
      if not (is_success response.status)
      then fail (
          provider (
            String.◌++◌ "Graph " (
              String.◌++◌ (g.show_status response.status)
                (String.◌++◌ ": " (graph_error_message host body)))))
      else lift (
          map_err (λ e. provider (String.◌++◌ "invalid Graph response: " e)) (host.parse_json body))

  -- `get_json`
  unfoldable pub get_json : Account → String → Exec AppError Value
  get_json account url = do response ← send_authorized account get_method url none; to_json response

  -- The payload of `send_message`.
  abbrev pub payload : String → String → String → Value
  payload to subject body = object (
      member "message"
        (object (
          member "subject" (text subject) (
            member "body"
              (object (member "contentType" (text "Text") (member "content" (text body) no_member)))
              (member "toRecipients"
                (array (
                  element
                    (object (
                      member "emailAddress" (object (member "address" (text to) no_member))
                        no_member))
                    no_element))
                no_member))))
        (member "saveToSentItems" (flag true) no_member))

  unfoldable pub check_sent : Response → Exec AppError (Unit {0})
  check_sent response =
      if not (is_success response.status)
      then fail (
          provider (
            String.◌++◌ "send failed (" (
              String.◌++◌ (g.show_status response.status)
                (String.◌++◌ "): " (graph_error_message host (Option.get_or response.text ""))))))
      else pure tt

  -- `send_message`
  unfoldable pub send_message : Account → String → String → String → Exec AppError (Unit {0})
  send_message account to subject body = do
    url ← lift (map_err invalid_url (host.parse_url (String.◌++◌ g.base_url "/me/sendMail")))
    response ← send_authorized account post_method url (some (payload to subject body))
    check_sent response

  -- The messages of a list that can be read.
  unfoldable pub emails_of : Elements → List Email
  emails_of no_element = []
  emails_of (element value rest) =
      prepend (Option.map to_email (g.read_message value)) (emails_of rest)

  abbrev pub listed : Option Value → List Email
  listed (some (array values)) = emails_of values
  listed _ = []

  -- The search or the order of `list_messages`.
  unfoldable pub with_query : Option String → String → String
  unfolding trim replace
  with_query none url = g.append_pair url "$orderby" "receivedDateTime desc"
  with_query (some q) url =
      if not (trim q == "")
      then g.append_pair url "$search" (String.◌++◌ "\"" (String.◌++◌ (replace b'"' "" q) "\""))
      else g.append_pair url "$orderby" "receivedDateTime desc"

  -- `list_messages`
  unfoldable pub list_messages : Account → ℕ → Option String → Exec AppError (List Email)
  list_messages account limit query = do
    url ← lift (map_err invalid_url (host.parse_url (String.◌++◌ g.base_url "/me/messages")))
    let paged = g.append_pair url "$top" (g.show_number limit)
    let selected = g.append_pair paged "$select" message_select
    json ← get_json account (with_query query selected)
    pure (listed (Json.get json "value"))

  -- `get_message`
  unfoldable pub get_message : Account → String → Exec AppError Email
  get_message account message_id = do
    base ← lift (map_err invalid_url (host.parse_url (String.◌++◌ g.base_url "/me/messages/")))
    url ← or_error (g.push_segment base message_id) (invalid_request "invalid message id")
    json ← get_json account url
    or_error (Option.map to_email (g.read_message json)) (provider "unexpected Graph message shape")

  -- `impl EmailProvider for MicrosoftGraph`
  abbrev pub graph_provider : EmailProvider
  graph_provider = record {
    list_messages = list_messages;
    get_message = get_message;
    send_message = send_message;
  }
