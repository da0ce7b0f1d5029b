-- ===== src/Provider/Graph/Returns.antt =====
-- The Graph backend of src/provider/graph.rs and the unified inbox return, and leave the database's
-- lock free.
use uni_mail.Common.{ℕ, String, List, [], ◌∷◌, Option, none}
use uni_mail.Exec.Calm.{NoPanic}
use uni_mail.Exec.Returns.{
  Returns, Returns-pure, Returns-bind, Returns-match, Returns-request, Returns-lift_err,
  returns_rules,
}
use uni_mail.Host.{Host, Method, Response}
use uni_mail.Json.{Value}
use uni_mail.Storage.Models.{Account}
use uni_mail.Auth.Returns.{HasReliableCrates, refresh_account-Returns, get_access_token-Returns}
use uni_mail.Auth.Flow.Returns.{AlwaysReturns}
use uni_mail.Provider.{EmailProvider}
use uni_mail.Provider.Inbox.{fetch_all, aggregate_unified_inbox}
use uni_mail.Provider.Graph.{
  MicrosoftGraph, send, retry_unauthorized, send_authorized, to_json, get_json, check_sent,
  send_message, list_messages, get_message, graph_provider,
}
use uni_mail.Provider.Graph.Message.{GraphCodec}
use uni_mail.Provider.Graph.Profile.{identity_of, fetch_profile, graph_resolver}

-- The calls of a backend return.
pub record IsAnswering (p : EmailProvider) : Type 0 where
  pub lists :
      (a : Account) (limit : ℕ) (query : Option String) → Returns (p.list_messages a limit query)
  pub gets : (a : Account) (id : String) → Returns (p.get_message a id)
  pub sends : (a : Account) (to subject body : String) → Returns (p.send_message a to subject body)

module _ {host : Host} (laws : HasReliableCrates host) (codec : GraphCodec)
    (reads : (text : String) → NoPanic (codec.read_profile text)) where
  identity_of-Returns : (r : Response) → Returns (identity_of host codec r)
  unfolding identity_of
  identity_of-Returns r = search (returns_rules, reads) depth 20

  pub graph_resolver-Returns :
      (base_url : String) → AlwaysReturns (graph_resolver host codec base_url)
  unfolding graph_resolver fetch_profile
  graph_resolver-Returns base_url token =
      search (Returns-request, returns_rules, laws.calm.parses, laws.sends, identity_of-Returns)
        depth 20

module _ {host : Host} (laws : HasReliableCrates host) (g : MicrosoftGraph) where
  send-Returns :
      (method : Method) (url token : String) (body : Option Value)
      → Returns (send host g method url token body)
  unfolding send
  send-Returns method url token body =
      search (Returns-request, Returns-lift_err, laws.sends) depth 20

  retry-Returns :
      (a : Account) (method : Method) (url : String) (body : Option Value) (r : Response)
      → Returns (retry_unauthorized host g a method url body r)
  unfolding retry_unauthorized
  retry-Returns a method url body r =
      search
        (returns_rules, refresh_account-Returns laws, get_access_token-Returns laws, send-Returns)
        depth 20

  send_authorized-Returns :
      (a : Account) (method : Method) (url : String) (body : Option Value)
      → Returns (send_authorized host g a method url body)
  unfolding send_authorized
  send_authorized-Returns a method url body =
      search (returns_rules, get_access_token-Returns laws, send-Returns, retry-Returns) depth 20

  get_json-Returns : (a : Account) (url : String) → Returns (get_json host g a url)
  unfolding get_json to_json
  get_json-Returns a url =
      search (returns_rules, laws.parses_json, send_authorized-Returns) depth 20

  send_message-Returns :
      (a : Account) (to subject body : String) → Returns (send_message host g a to subject body)
  unfolding send_message check_sent
  send_message-Returns a to subject body =
      search (returns_rules, laws.calm.parses, send_authorized-Returns) depth 20

  list_messages-Returns :
      (a : Account) (limit : ℕ) (query : Option String)
      → Returns (list_messages host g a limit query)
  unfolding list_messages
  list_messages-Returns a limit query =
      search (returns_rules, laws.calm.parses, get_json-Returns) depth 20

  get_message-Returns : (a : Account) (id : String) → Returns (get_message host g a id)
  unfolding get_message
  get_message-Returns a id = search (returns_rules, laws.calm.parses, get_json-Returns) depth 20

  pub graph_provider-IsAnswering : IsAnswering (graph_provider host g)
  graph_provider-IsAnswering = record {
    lists = list_messages-Returns;
    gets = get_message-Returns;
    sends = send_message-Returns;
  }

module _ (host : Host) (p : EmailProvider) (answering : IsAnswering p) where
  fetch_all-Returns : (limit : ℕ) (accounts : List Account) → Returns (fetch_all p limit accounts)
  unfolding fetch_all
  fetch_all-Returns limit [] = search returns_rules
  fetch_all-Returns limit (a ∷ rest) =
      Returns-match _ _ (answering.lists a limit none)
        (λ _ _. Returns-bind _ _ (fetch_all-Returns limit rest) (λ _. Returns-pure _))

  pub aggregate-Returns :
      (accounts : List Account) (limit : ℕ)
      → Returns (aggregate_unified_inbox host p accounts limit)
  unfolding aggregate_unified_inbox
  aggregate-Returns accounts limit =
      Returns-bind _ _ (fetch_all-Returns limit accounts) (λ _. Returns-pure _)
