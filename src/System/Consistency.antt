-- ===== src/System/Consistency.antt =====
-- The schema's constraints over the whole life of the database.
use uni_mail.Exec.{World}
use uni_mail.Host.{Host}
use uni_mail.Storage.Consistency.{IsConsistent}
use uni_mail.Storage.Consistency.Stores.{stores-IsConsistent, upsert-Keeps}
use uni_mail.Provider.Graph.Message.{GraphCodec}
use uni_mail.Provider.Graph.Consistency.{graph_provider-IsKeeping, graph_resolver-Keeps}
use uni_mail.Api.State.{build, build_manager}
use uni_mail.System.{Reach, reopen}
use uni_mail.System.Keeping.{perform_keeps}

reopen-IsConsistent : (w : World) → IsConsistent w.db → IsConsistent (reopen w).db
reopen-IsConsistent w h = record {
  accounts_distinct = h.accounts_distinct;
  tokens_distinct = h.tokens_distinct;
  tokens_owned = h.tokens_owned;
  flows_distinct = h.flows_distinct;
}

-- The constraints of the schema hold in every state that the program reaches from an empty database
-- by any sequence of HTTP requests, OAuth redirects, MCP tools, subcommands, background rounds and
-- restarts, each under any configuration and whether it succeeds, fails or panics: account ids are
-- unique, as is an email within its tenant, as compared byte by byte; an account has at most one
-- token, and every token an account; states of pending flows are unique.
pub reachable-IsConsistent :
    (host : Host) (codec : GraphCodec) {w : World} → Reach host codec w → IsConsistent w.db
unfolding build build_manager
reachable-IsConsistent host codec Reach.start = record {
  accounts_distinct = tt;
  tokens_distinct = tt;
  tokens_owned = tt;
  flows_distinct = tt;
}
reachable-IsConsistent host codec (Reach.next config task {w} before) =
    perform_keeps host (build host codec config) (stores-IsConsistent host config.encryption_key)
      (λ a. graph_provider-IsKeeping host _ a (upsert-Keeps host _ a.id))
      (graph_resolver-Keeps host codec config.graph_base_url) reopen-IsConsistent task w
      (reachable-IsConsistent host codec before)
