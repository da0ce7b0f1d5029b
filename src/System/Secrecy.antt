-- ===== src/System/Secrecy.antt =====
-- Encryption at rest over the whole life of the database (src/storage/crypto.rs, and every writer).
use uni_mail.Common.{◌≡◌, ℕ, List}
use uni_mail.Exec.{World}
use uni_mail.Host.{Host}
use uni_mail.Storage.Secrecy.{IsSealedAtRest}
use uni_mail.Storage.Secrecy.Stores.{stores-IsSealedAtRest}
use uni_mail.Storage.Keeping.{KeepsStores}
use uni_mail.Provider.Graph.Message.{GraphCodec}
use uni_mail.Provider.Graph.Consistency.{graph_provider-IsKeeping, graph_resolver-Keeps}
use uni_mail.Api.State.{build, build_manager}
use uni_mail.System.{Reach, Task, perform}
use uni_mail.System.Keeping.{perform_keeps}
use uni_mail.Config.{Config}

-- Every process of this life had the master key.
abbrev pub UsesKey :
    {host : Host} {codec : GraphCodec} {w : World} → List ℕ → Reach host codec w → Type 0
UsesKey key Reach.start = Unit
UsesKey key (Reach.next config task before) = (config.encryption_key ≡ key) × UsesKey key before

perform-IsSealedAtRest :
    (host : Host) (codec : GraphCodec) (key : List ℕ) (config : Config) (task : Task) (w : World)
    → config.encryption_key ≡ key
    → IsSealedAtRest host key w.db
    → IsSealedAtRest host key (perform host (build host codec config) task w).db
unfolding build build_manager
perform-IsSealedAtRest host codec key config task w same =
    let stores : KeepsStores host config.encryption_key (IsSealedAtRest host key) =
      rw same (stores-IsSealedAtRest host key) in
    perform_keeps host (build host codec config) stores
      (λ a. graph_provider-IsKeeping host _ a (stores.upsert a.id))
      (graph_resolver-Keeps host codec config.graph_base_url)
      (λ v h. record { tokens = h.tokens; flows = h.flows }) task w

-- Encryption at rest: in every state that the program reaches from an empty database, under
-- configurations that share a master key and whether its tasks succeed, fail or panic, each access
-- token, refresh token and verifier in the tables is a nonce that the host drew, followed by what the
-- cipher made of a plaintext under that key and that nonce.
pub reachable-IsSealedAtRest :
    (host : Host) (codec : GraphCodec) (key : List ℕ) {w : World} (life : Reach host codec w)
    → UsesKey key life
    → IsSealedAtRest host key w.db
reachable-IsSealedAtRest host codec key Reach.start uses = record { tokens = tt; flows = tt }
reachable-IsSealedAtRest host codec key (Reach.next config task {w} before) (same, uses) =
    perform-IsSealedAtRest host codec key config task w same
      (reachable-IsSealedAtRest host codec key before uses)
