-- ===== src/Negotiator.antt =====
-- crates/stross-kernel/src/negotiator/mod.rs: who may subscribe to what, and the grants given out.
-- The kernel behind the negotiator is the record `KernelOps`. Identifiers are numbers.
mod Types
pub mod Decisions
pub mod Policy
pub mod Grants
mod Tests
pub use Types.*
use stross.Base.{
  ℕ, suc, ◌+◌, List, [], ◌∷◌, Option, none, some, Bool, true, false, ◌==◌, if◌then◌else◌,
}
use stross.Base.Result.{Result, ok, err, ◌>>=◌}
use stross.Base.Assoc.{lookup, remove, insert}
use stross.Proto.Message.{Text}

unfoldable pub is_trusted : TrustStore → ℕ → Bool
is_trusted store node = elim (lookup node store) [ none ↦ false | some t ↦ true ]

-- The file of the store is written too, and a failure to do so only logged.
unfoldable pub remember : TrustStore → ℕ → Text → ℕ → TrustStore
remember store node name secs = insert node (record { name = name; added_at = secs }) store

pub data Decision : Type 0 where
  grant pending reject : Decision

unfoldable pub any_node : ℕ → List ℕ → Bool
any_node requester [] = false
any_node requester (n ∷ nodes) = if n == requester then true else any_node requester nodes

unfoldable pub trusted_decision : TrustStore → ℕ → Decision
trusted_decision store requester = if is_trusted store requester then grant else pending

unfoldable pub visibility_decision : TrustStore → Visibility → ℕ → Decision
visibility_decision store public requester = grant
visibility_decision store confirm requester = trusted_decision store requester
visibility_decision store (private nodes) requester =
    if any_node requester nodes then grant else reject

unfoldable pub policy_decision : TrustStore → Option EndpointManifest → ℕ → Decision
policy_decision store none requester = trusted_decision store requester
policy_decision store (some m) requester = visibility_decision store m.visibility requester

-- The endpoint that a request asks for: a kind and an id, or else none.
unfoldable pub asked : ShareRequest → Option EndpointId
asked req = elim req.endpoint_kind [
  | none ↦ none
  | some kind ↦ elim req.endpoint_id [
    | none ↦ none
    | some id ↦ some (record { kind = kind; id = id })
  ]
]

-- The end of the time for a confirmation, with the answer to the request.
unfoldable pub time_out : {S : Type 0} → Negotiator S → ℕ → Answer × Negotiator S
time_out n req_id = (gateway_timeout, record n { pendings = remove req_id n.pendings })

module _ {S : Type 0} (ops : KernelOps S) where
  unfoldable pub checked_strategy : EndpointManifest → Option ℕ → Result Text EndpointStrategy
  checked_strategy m strategy_id =
      let strategy = ops.strategy_of m strategy_id in
      if ops.has_loader strategy then ok strategy else err (ops.unsupported strategy)

  unfoldable pub endpoint_grant : S → Bool → EndpointManifest → ℕ → EndpointStrategy → ShareGrant
  endpoint_grant app trusted m stream_id strategy = record {
    view = record { token = []; stream_id = stream_id; pin = []; expires_at = 0 };
    trusted = trusted;
    delivery = some pull;
    transports = some (m.transports);
    transport_profile = some (m.transport_profile);
    pick_rule = some (m.pick_rule);
    strategy = some strategy;
    relay = ops.relay_ports app;
  }

  -- The part of `compose_grant` for an endpoint that is not shared yet.
  unfoldable pub new_share :
      S → Bool → EndpointManifest → Option ℕ → Title → Result Text ShareGrant × S
  new_share app trusted m strategy_id title =
      let stream_id = ops.derive_stream_id (id_of m) m.transport_profile m.pick_rule in
      let (made, app') = ops.ensure_session_with_id app stream_id title in
      (
        made >>= λ u.
            checked_strategy m strategy_id >>= λ s. ok (endpoint_grant app' trusted m stream_id s),
        app',
      )

  unfoldable pub token_grant : S → Bool → List MediaKind → Title → Result Text ShareGrant × S
  token_grant app trusted media title =
      let (issued, app') = ops.issue_share_token_for app title media in
      (
        issued >>= λ view. ok (record {
          view = view;
          trusted = trusted;
          delivery = none;
          transports = none;
          transport_profile = none;
          pick_rule = none;
          strategy = none;
          relay = none;
        }),
        app',
      )

  unfoldable pub compose_grant :
      S
      → TrustStore
      → ℕ
      → Option EndpointManifest
      → Option ℕ
      → List MediaKind
      → Title
      → Result Text ShareGrant × S
  compose_grant app store node none strategy_id media title =
      token_grant app (is_trusted store node) media title
  compose_grant app store node (some m) strategy_id media title =
      elim (ops.active_share_by_endpoint app (id_of m)) [
        | some sid ↦ (
          checked_strategy m strategy_id >>= λ s.
              ok (endpoint_grant app (is_trusted store node) m sid s),
          app,
        )
        | none ↦ new_share app (is_trusted store node) m strategy_id title
      ]

  unfoldable pub notify : S → Option EndpointId → ShareGrant → ℕ → S
  notify app none g node = app
  notify app (some eid) g node = elim g.delivery [
    | none ↦ app
    | some d ↦ ops.notify_subscribed app eid g node
  ]

  unfoldable pub manifest_of : S → Option EndpointId → Option EndpointManifest
  manifest_of app none = none
  manifest_of app (some eid) = ops.endpoint_manifest app eid

  -- `ShareNegotiator::grant`, for a request that was confirmed.
  unfoldable pub grant_entry : S → TrustStore → PendingEntry → Result Text ShareGrant × S
  grant_entry app store e =
      let endpoint = manifest_of app e.endpoint_id in
      let media : List MediaKind = elim endpoint [ none ↦ mic ∷ [] | some m ↦ m.kind ∷ [] ] in
      let title : Title = elim endpoint [
        | none ↦ shared_by (e.node_name)
        | some m ↦ shared_by (m.name)
      ] in
      compose_grant app store e.node_id endpoint e.strategy_id media title

  unfoldable pub respond :
      Negotiator S → ℕ → Bool → Bool → ℕ → Result RespondError (Option ShareGrant) × Negotiator S
  respond n req_id allow remembers secs = elim (lookup req_id n.pendings) [
    | none ↦ (err unknown_request, n)
    | some e ↦
        let taken = record n { pendings = remove req_id n.pendings } in
        let store = if remembers then remember n.store e.node_id e.node_name secs else n.store in
        let (r, app) = grant_entry n.app store e in
        if allow
        then (elim r [
          | err m ↦ (err (not_granted m), record taken { store = store; app = app })
          | ok g ↦ (
            ok (some g),
            record taken { store = store; app = notify app e.endpoint_id g e.node_id },
          )
        ])
        else (ok none, taken)
  ]

  -- What `respond` tells the request that waits; when the grant fails, its channel is dropped.
  unfoldable pub told_by : Result RespondError (Option ShareGrant) → Waited
  told_by (ok (some g)) = allowed g
  told_by (ok none) = refused
  told_by (err e) = closed

  unfoldable pub decide :
      Negotiator S → ShareRequest → Option EndpointManifest → Answer × Negotiator S
  decide n req endpoint =
      let media : List MediaKind = elim endpoint [ none ↦ req.media | some m ↦ m.kind ∷ [] ] in
      let title : Title = elim endpoint [
        | none ↦ shared_by (req.node_name)
        | some m ↦ shared_by (m.name)
      ] in
      let (r, app) = compose_grant n.app n.store req.node_id endpoint req.strategy_id media title in
      elim (policy_decision n.store endpoint req.node_id) [
        | grant ↦ elim r [
          | ok g ↦ (granted g, record n { app = notify app (asked req) g req.node_id })
          | err m ↦ (internal_error, record n { app = app })
        ]
        | reject ↦ (forbidden, n)
        | pending ↦ (
          parked (n.next_id),
          record n {
            next_id = suc (n.next_id);
            pendings =
                insert (n.next_id)
                  (record {
                    node_id = req.node_id;
                    node_name = req.node_name;
                    endpoint_id = asked req;
                    strategy_id = req.strategy_id;
                  })
                  n.pendings;
          },
        )
      ]

  -- Up to where the request is answered or waits for the user.
  unfoldable pub begin_request : Negotiator S → ShareRequest → Answer × Negotiator S
  begin_request n req = elim (asked req) [
    | none ↦ elim req.media [ [] ↦ (bad_request, n) | k ∷ ks ↦ decide n req none ]
    | some eid ↦ elim (ops.endpoint_manifest n.app eid) [
      | none ↦ (not_found, n)
      | some m ↦ if m.available then decide n req (some m) else (not_found, n)
    ]
  ]

  -- What a parked request is answered.
  unfoldable pub resume : Negotiator S → ℕ → Waited → Answer × Negotiator S
  unfolding time_out
  resume n req_id (allowed g) = (granted g, n)
  resume n req_id refused = (forbidden, n)
  resume n req_id elapsed = time_out n req_id
  resume n req_id closed = (internal_error, n)

  -- `wait` is what others do with the negotiator until the request with an id is told something or its
  -- time is over.
  unfoldable pub answered :
      (ℕ → Negotiator S → Waited × Negotiator S) → Answer × Negotiator S → Answer × Negotiator S
  unfolding resume
  answered wait (parked req_id, begun) =
      resume ((wait req_id begun).1) req_id ((wait req_id begun).0)
  answered wait (granted g, begun) = (granted g, begun)
  answered wait (bad_request, begun) = (bad_request, begun)
  answered wait (forbidden, begun) = (forbidden, begun)
  answered wait (not_found, begun) = (not_found, begun)
  answered wait (internal_error, begun) = (internal_error, begun)
  answered wait (gateway_timeout, begun) = (gateway_timeout, begun)

  unfoldable pub handle_request :
      (ℕ → Negotiator S → Waited × Negotiator S)
      → Negotiator S
      → ShareRequest
      → Answer × Negotiator S
  unfolding begin_request answered
  handle_request wait n req = answered wait (begin_request n req)
