-- ===== src/Provider/Graph/Consistency.antt =====
-- The schema's constraints under the Graph backend of src/provider/graph.rs and the unified inbox.
use uni_mail.Exec.{Database}
use uni_mail.Storage.Tokens
use uni_mail.Storage.Tokens.{StoredToken}
use uni_mail.Common.{All, ℕ, String, List, [], ◌∷◌, Option, none}
use uni_mail.Exec.Keeps.{Keeps, Keeps-bind, Keeps-attempt, Keeps-pure, keeps_rules}
use uni_mail.Host.{Host, Method, Response}
use uni_mail.Json.{Value}
use uni_mail.Storage.Models.{Account}
use uni_mail.Auth.Keeping.{refresh_account-Keeps, get_access_token-Keeps}
use uni_mail.Auth.Flow.Keeping.{KeepsDatabase}
use uni_mail.Provider.{EmailProvider}
use uni_mail.Provider.Inbox.{fetch_all, aggregate_unified_inbox}
use uni_mail.Provider.Graph.{
  MicrosoftGraph, send, retry_unauthorized, send_authorized, to_json, get_json, check_sent,
  send_message, list_messages, get_message, graph_provider,
}
use uni_mail.Provider.Graph.Message.{GraphCodec}
use uni_mail.Provider.Graph.Profile.{identity_of, fetch_profile, graph_resolver}

-- The calls of a backend for one account keep an invariant.
pub record IsKeeping (P : Database → Type 0) (p : EmailProvider) (a : Account) : Type 0 where
  pub lists : (limit : ℕ) (query : Option String) → Keeps P (p.list_messages a limit query)
  pub gets : (id : String) → Keeps P (p.get_message a id)
  pub sends : (to subject body : String) → Keeps P (p.send_message a to subject body)

module _ {P : Database → Type 0} (host : Host) (codec : GraphCodec) where
  identity_of-Keeps : (r : Response) → Keeps P (identity_of host codec r)
  unfolding identity_of
  identity_of-Keeps r = search keeps_rules depth 20

  pub graph_resolver-Keeps :
      (base_url : String) → KeepsDatabase P (graph_resolver host codec base_url)
  unfolding graph_resolver fetch_profile
  graph_resolver-Keeps base_url token = search (keeps_rules, identity_of-Keeps) depth 20

module _ {P : Database → Type 0} (host : Host) (g : MicrosoftGraph) (a : Account)
    (writes : (token : StoredToken) → Keeps P (Tokens.upsert host g.tokens.key a.id token)) where
  send-Keeps :
      (method : Method) (url token : String) (body : Option Value)
      → Keeps P (send host g method url token body)
  unfolding send
  send-Keeps method url token body = search keeps_rules depth 20

  retry-Keeps :
      (method : Method) (url : String) (body : Option Value) (r : Response)
      → Keeps P (retry_unauthorized host g a method url body r)
  unfolding retry_unauthorized
  retry-Keeps method url body r =
      search (keeps_rules, refresh_account-Keeps, get_access_token-Keeps, writes, send-Keeps) depth
        20

  send_authorized-Keeps :
      (method : Method) (url : String) (body : Option Value)
      → Keeps P (send_authorized host g a method url body)
  unfolding send_authorized
  send_authorized-Keeps method url body =
      search (keeps_rules, get_access_token-Keeps, writes, send-Keeps, retry-Keeps) depth 20

  get_json-Keeps : (url : String) → Keeps P (get_json host g a url)
  unfolding get_json to_json
  get_json-Keeps url = search (keeps_rules, send_authorized-Keeps) depth 20

  send_message-Keeps : (to subject body : String) → Keeps P (send_message host g a to subject body)
  unfolding send_message check_sent
  send_message-Keeps to subject body = search (keeps_rules, send_authorized-Keeps) depth 20

  list_messages-Keeps :
      (limit : ℕ) (query : Option String) → Keeps P (list_messages host g a limit query)
  unfolding list_messages
  list_messages-Keeps limit query = search (keeps_rules, get_json-Keeps) depth 20

  get_message-Keeps : (id : String) → Keeps P (get_message host g a id)
  unfolding get_message
  get_message-Keeps id = search (keeps_rules, get_json-Keeps) depth 20

  pub graph_provider-IsKeeping : IsKeeping P (graph_provider host g) a
  graph_provider-IsKeeping = record {
    lists = list_messages-Keeps;
    gets = get_message-Keeps;
    sends = send_message-Keeps;
  }

module _ {P : Database → Type 0} (host : Host) (p : EmailProvider) where
  fetch_all-Keeps :
      (limit : ℕ) (accounts : List Account)
      → All (IsKeeping P p) accounts
      → Keeps P (fetch_all p limit accounts)
  unfolding fetch_all
  fetch_all-Keeps limit [] h = search keeps_rules
  fetch_all-Keeps limit (a ∷ rest) (here, more) =
      Keeps-bind _ _ (Keeps-attempt _ (here.lists limit none))
        (λ _. Keeps-bind _ _ (fetch_all-Keeps limit rest more) (λ _. Keeps-pure _))

  pub aggregate-Keeps :
      (accounts : List Account) (limit : ℕ)
      → All (IsKeeping P p) accounts
      → Keeps P (aggregate_unified_inbox host p accounts limit)
  unfolding aggregate_unified_inbox
  aggregate-Keeps accounts limit h =
      Keeps-bind _ _ (fetch_all-Keeps limit accounts h) (λ _. Keeps-pure _)
