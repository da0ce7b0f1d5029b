-- ===== src/System/Responses.antt =====
-- The responses of the running REST API (src/api).
use uni_mail.Common.{◌≡◌, ◌⊎◌, String, some}
use uni_mail.Exec.{World}
use uni_mail.Exec.Calm.{NoPanic}
use uni_mail.Host.{Host}
use uni_mail.Storage.Crypto.Laws.{HasCipher}
use uni_mail.Config.{Config}
use uni_mail.Auth.Returns.{HasReliableCrates}
use uni_mail.Provider.Graph.Message.{GraphCodec}
use uni_mail.Api.Auth.{Headers}
use uni_mail.Api.Response.{Response, respond}
use uni_mail.Api.Response.Laws.{IsSuccess, IsFailure, router_responds}
use uni_mail.Api.Router.{Endpoint, router}
use uni_mail.Api.State.{build}
use uni_mail.System.{Task, Reach}
use uni_mail.System.Ends.{TaskEnds, IsSound}
use uni_mail.System.Returns.{reachable_ends}

-- Where the crates return wherever they may fail (reading a profile included), no answered lifetime and no
-- clock time with five minutes added leads past chrono's times, and the cipher works as documented with
-- the configured key: in every state that the program reaches, every request to a protected route that
-- axum's extractors accept gets a response. On success it has the status of its endpoint, with a JSON
-- body that a client reads by the names of the fields (accounts, a consent URL, emails, one email, or
-- messages of the unified inbox with their accounts), or with no body (204 and 202); otherwise it has
-- one of the statuses 400, 401, 404, 500 and 502, with the text of the error under `error`.
pub requests_are_answered :
    {host : Host} (laws : HasReliableCrates host) (codec : GraphCodec)
    (reads : (text : String) → NoPanic (codec.read_profile text)) (config : Config)
    (headers : Headers) (endpoint : Endpoint) {w : World}
    → Reach host codec w
    → HasCipher host config.encryption_key
    → (response : Response) × (respond (router host (build host codec config) headers endpoint w).0
        ≡ some response)
      × (IsSuccess endpoint response ⊎ IsFailure response)
unfolding TaskEnds IsSound
requests_are_answered {host} laws codec reads config headers endpoint {w} life cipher =
    router_responds host (build host codec config) headers endpoint w
      (reachable_ends laws codec reads config (Task.http headers endpoint) life cipher tt)
