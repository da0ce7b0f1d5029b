-- ===== src/Api/State.antt =====
-- src/api/state.rs: `AppState::build`, behind the construction of the HTTP client and the opening
-- of the database.
use uni_mail.Host.{Host, OAuthClient}
use uni_mail.Config.{Config}
use uni_mail.Auth.Token.{TokenManager}
use uni_mail.Provider.Graph.{graph_provider}
use uni_mail.Provider.Graph.Message.{GraphCodec}
use uni_mail.Provider.Graph.Profile.{graph_resolver}
use uni_mail.Api.Routes.{AppState}

-- `OAuthClient::new`
unfoldable pub oauth_client : Config → OAuthClient
oauth_client c = record {
  client_id = c.client_id;
  client_secret = c.client_secret;
  auth_url = c.auth_url;
  token_url = c.token_url;
  redirect_uri = c.redirect_uri;
}

-- The token manager of `build`, with its resolver.
unfoldable pub build_manager : Host → GraphCodec → Config → TokenManager
unfolding oauth_client
build_manager host codec c = record {
  oauth = oauth_client c;
  key = c.encryption_key;
  profile = graph_resolver host codec c.graph_base_url;
}

-- `AppState::build`
unfoldable pub build : Host → GraphCodec → Config → AppState
unfolding build_manager
build host codec c =
    let manager = build_manager host codec c in
    record {
      config = c;
      provider =
          graph_provider host
            (record { base_url = c.graph_base_url; tokens = manager; codec = codec });
      token_manager = manager;
    }
