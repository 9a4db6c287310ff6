-- ===== src/Negotiator/Tests.antt =====
-- The negotiator over a small kernel, and its theorems at concrete inputs.
use stross.Base.{ℕ, ◌≡◌, refl, true, false, [], ◌∷◌, none, some, ◌⊎◌, ◌==◌, if◌then◌else◌}
use stross.Base.Result.{ok, err}
use stross.Negotiator.{
  KernelOps, PendingEntry, ShareTokenView, Negotiator, ShareRequest, ShareGrant, EndpointManifest,
  EndpointStrategy, Visibility, private, public, confirm, screen, pull, shared_by, granted,
  handle_request, begin_request, answered, resume, told_by, asked, Waited, bad_request,
  trusted_decision, grant_entry, decide, compose_grant, new_share, endpoint_grant, checked_strategy,
  notify, manifest_of, policy_decision, visibility_decision, is_trusted, respond, time_out,
  unknown_request,
}
use stross.Negotiator.Decisions.{Authorized}
use stross.Negotiator.Policy.{Available, Confirmed, handle_request-Authorized}
use stross.Negotiator.Grants.{respond_once, respond_gone}

abbrev shown : ℕ → Visibility → EndpointManifest
shown id v = record {
  endpoint_id = id;
  kind = screen;
  name = 97 ∷ [];
  available = true;
  visibility = v;
  transports = 0 ∷ [];
  transport_profile = 0;
  pick_rule = 1;
}

abbrev passthrough : EndpointStrategy
passthrough = record { strategy_id = 0; serialize = 0 }

-- A kernel that counts its sessions and has three endpoints.
abbrev kernel : KernelOps ℕ
kernel = record {
  endpoint_manifest = λ app e.
      if e.id == 1
      then some (shown 1 public)
      else if e.id == 2
      then some (shown 2 (private (7 ∷ [])))
      else if e.id == 3
      then some (shown 3 confirm)
      else none;
  active_share_by_endpoint = λ app e. none;
  issue_share_token_for = λ app title media.
      (ok (record { token = 116 ∷ []; stream_id = app; pin = []; expires_at = 60 }), app);
  ensure_session_with_id = λ app id title. (ok tt, app);
  derive_stream_id = λ e profile rule. 100;
  relay_ports = λ app. none;
  strategy_of = λ m id. passthrough;
  has_loader = λ s. true;
  unsupported = λ s. [];
  notify_subscribed = λ app e g node. app;
}

abbrev negotiator : Negotiator ℕ
negotiator = record { app = 5; store = []; pendings = []; next_id = 1 }

abbrev asks : ℕ → ShareRequest
asks id = record {
  node_id = 9;
  node_name = [];
  endpoint_kind = some screen;
  endpoint_id = some id;
  media = [];
  strategy_id = none;
}

abbrev screen_grant : ShareGrant
screen_grant = record {
  view = record { token = []; stream_id = 100; pin = []; expires_at = 0 };
  trusted = false;
  delivery = some pull;
  transports = some (0 ∷ []);
  transport_profile = some 0;
  pick_rule = some 1;
  strategy = some passthrough;
  relay = none;
}

-- The user allows the request that waits.
abbrev allowing : ℕ → Negotiator ℕ → Waited × Negotiator ℕ
allowing id n =
    (told_by kernel ((respond kernel n id true false 0).0), (respond kernel n id true false 0).1)

asks_public : (begin_request kernel negotiator (asks 1)).0 ≡ granted screen_grant
unfolding begin_request asked decide policy_decision visibility_decision compose_grant new_share
    checked_strategy endpoint_grant notify is_trusted
asks_public = refl

asks_confirmed : (handle_request kernel allowing negotiator (asks 3)).0 ≡ granted screen_grant
unfolding handle_request begin_request answered resume told_by asked decide policy_decision
    visibility_decision trusted_decision compose_grant new_share checked_strategy endpoint_grant
    notify is_trusted respond grant_entry manifest_of
asks_confirmed = refl

-- A kind without an id asks for no endpoint, and then the media may not be empty.
asks_half :
    (begin_request kernel negotiator (record (asks 1) { endpoint_id = none })).0 ≡ bad_request
unfolding begin_request asked
asks_half = refl

handle_request-Authorized_example :
    Available kernel negotiator (asks 3)
    × (Authorized [] (manifest_of kernel 5 (asked (asks 3))) 9
        ⊎ Confirmed kernel allowing negotiator (asks 3) screen_grant)
handle_request-Authorized_example =
    handle_request-Authorized kernel allowing negotiator (asks 3) screen_grant asks_confirmed

abbrev waiting : Negotiator ℕ
waiting = record negotiator {
  pendings =
      (
        1,
        record {
          node_id = 9;
          node_name = [];
          endpoint_id = some (record { kind = screen; id = 4 });
          strategy_id = none;
        },
      )
      ∷ [];
}

respond_once_example :
    (respond kernel ((respond kernel waiting 1 true false 0).1) 1 false false 0
      ≡ (err unknown_request, (respond kernel waiting 1 true false 0).1))
    × (respond kernel ((time_out waiting 1).1) 1 false false 0
        ≡ (err unknown_request, (time_out waiting 1).1))
respond_once_example = respond_once kernel waiting 1 true false false false 0 0

abbrev entry : PendingEntry
entry = record {
  node_id = 9;
  node_name = [];
  endpoint_id = some (record { kind = screen; id = 4 });
  strategy_id = none;
}

abbrev issued : ShareTokenView
issued = record { token = 116 ∷ []; stream_id = 5; pin = []; expires_at = 60 }

respond_gone_example :
    (g : ShareGrant) × ((respond kernel waiting 1 true true 0).0 ≡ ok (some g))
    × (g.view ≡ issued)
    × (g.delivery ≡ none)
respond_gone_example =
    respond_gone kernel waiting 1 true 0 entry (record { kind = screen; id = 4 }) issued refl refl
      refl refl

composes :
    (compose_grant kernel 5 [] 9 (some (shown 1 public)) none (screen ∷ []) (shared_by [])).0
    ≡ ok screen_grant
unfolding compose_grant new_share checked_strategy endpoint_grant is_trusted
composes = refl
