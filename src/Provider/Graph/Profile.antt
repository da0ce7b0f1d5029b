-- ===== src/Provider/Graph/Profile.antt =====
-- src/provider/graph.rs: `GraphIdentityResolver`, which looks up who has consented.
use Prim.Native.String
use uni_mail.Common.{String, not, Option, none, some, ◌==◌, if◌then◌else◌}
use mathlib.Core.Option
use uni_mail.Error.{map_err, AppError, provider, auth}
use uni_mail.Exec.{Exec, ◌>>=◌, pure, fail, lift, or_error, request}
use uni_mail.Host.{Host, get_method, Response, graph}
use uni_mail.Auth.Token.{ResolvedIdentity, ProfileResolver}
use uni_mail.Provider.Graph.Message.{GraphCodec, Profile}
use uni_mail.Provider.Graph.{is_success, graph_error_message, invalid_url}

-- `o.or(p)`
abbrev pub or_else : Option String → Option String → Option String
or_else none p = p
or_else (some s) p = some s

-- `o.filter(|s| !s.is_empty())`
abbrev pub unless_empty : Option String → Option String
unless_empty none = none
unless_empty (some s) = if s == "" then none else some s

-- The email of a profile.
unfoldable pub email_of : Profile → Option String
email_of p = unless_empty (or_else p.mail p.user_principal_name)

module _ (host : Host) (codec : GraphCodec) where
  -- The part of `fetch_profile` behind the response.
  unfoldable pub identity_of : Response → Exec AppError ResolvedIdentity
  identity_of response =
      let body = Option.get_or response.text "" in
      if not (is_success response.status)
      then fail (
          auth (
            String.◌++◌ "could not fetch account profile (" (
              String.◌++◌ (codec.show_status response.status)
                (String.◌++◌ "): " (graph_error_message host body)))))
      else (do
        profile ←
            lift (map_err (λ e. auth (String.◌++◌ "invalid profile: " e)) (codec.read_profile body))
        email ←
            or_error (email_of profile) (auth "account profile did not include an email address")
        pure (record { email = email; display_name = profile.display_name }))

  -- `fetch_profile`
  unfoldable pub fetch_profile : String → String → Exec AppError ResolvedIdentity
  fetch_profile base_url access_token = do
    url ← lift (map_err invalid_url (host.parse_url (String.◌++◌ base_url "/me")))
    answer ←
        request (graph get_method url access_token none)
          (λ n. host.send n (graph get_method url access_token none))
    response ← lift (map_err provider answer)
    identity_of response

  -- `GraphIdentityResolver`
  unfoldable pub graph_resolver : String → ProfileResolver
  graph_resolver base_url = record { resolve = fetch_profile base_url }
