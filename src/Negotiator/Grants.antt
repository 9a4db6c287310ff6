-- ===== src/Negotiator/Grants.antt =====
-- What a grant contains, and that a request is answered once.
use stross.Base.{
  ℕ, ◌≡◌, refl, ap, ◌∙◌, if◌then◌else◌, List, [], ◌∷◌, Option, none, some, Bool, Bool-cases,
  Option-cases, true, inl, inr, ◌⊎◌, arith,
}
use stross.Base.Result.{ok, err, Result-cases, ◌>>=◌}
use stross.Base.Assoc.{lookup, lookup-remove}
use stross.Negotiator.{
  TrustStore, EndpointManifest, EndpointId, PendingEntry, KernelOps, Negotiator, ShareGrant,
  ShareTokenView, Title, MediaKind, id_of, unknown_request, respond, time_out, grant_entry,
  compose_grant, new_share, endpoint_grant, checked_strategy, manifest_of, pull, mic, token_grant,
  remember, shared_by, is_trusted,
}

module _ {S : Type 0} (ops : KernelOps S) where
  respond_unknown :
      (n : Negotiator S) (id : ℕ) (allow remembers : Bool) (secs : ℕ)
      → lookup id n.pendings ≡ none
      → respond ops n id allow remembers secs ≡ (err unknown_request, n)
  unfolding respond
  respond_unknown n id allow remembers secs e = ground arith

  respond-pendings :
      (n : Negotiator S) (id : ℕ) (allow remembers : Bool) (secs : ℕ)
      → lookup id (respond ops n id allow remembers secs).1.pendings ≡ none
  unfolding respond
  respond-pendings n id allow remembers secs = elim (Option-cases (lookup id n.pendings)) [
    | inl e ↦ ground arith
    | inr (entry, e) ↦ ground (arith, e, lookup-remove id n.pendings)
  ]

  -- A pending request takes one answer: once the user has responded to it, or its time is over, a
  -- further response fails and changes nothing.
  pub respond_once :
      (n : Negotiator S) (id : ℕ) (allow remembers allow' remembers' : Bool) (secs secs' : ℕ)
      → (respond ops ((respond ops n id allow remembers secs).1) id allow' remembers' secs'
          ≡ (err unknown_request, (respond ops n id allow remembers secs).1))
        × (respond ops ((time_out n id).1) id allow' remembers' secs'
            ≡ (err unknown_request, (time_out n id).1))
  unfolding time_out
  respond_once n id allow remembers allow' remembers' secs secs' = (
    respond_unknown ((respond ops n id allow remembers secs).1) id allow' remembers' secs'
        (respond-pendings n id allow remembers secs),
    respond_unknown ((time_out n id).1) id allow' remembers' secs' (lookup-remove id n.pendings),
  )

  grant_entry_gone :
      (app : S) (store : TrustStore) (e : PendingEntry) (eid : EndpointId)
      → e.endpoint_id ≡ some eid
      → ops.endpoint_manifest app eid ≡ none
      → grant_entry ops app store e
        ≡ compose_grant ops app store e.node_id none e.strategy_id
            (mic ∷ [])
            (shared_by (e.node_name))
  unfolding grant_entry manifest_of
  grant_entry_gone app store e eid h gone = ground (arith, h, gone)

  token_granted :
      (app : S) (trusted : Bool) (media : List MediaKind) (title : Title) (view : ShareTokenView)
      → (ops.issue_share_token_for app title media).0 ≡ ok view
      → (g : ShareGrant) × ((token_grant ops app trusted media title).0 ≡ ok g)
        × (g.view ≡ view)
        × (g.delivery ≡ none)
  unfolding token_grant
  token_granted app trusted media title view e = (
    record {
      view = view;
      trusted = trusted;
      delivery = none;
      transports = none;
      transport_profile = none;
      pick_rule = none;
      strategy = none;
      relay = none;
    },
    ground (arith, e),
    refl,
    refl,
  )

  abbrev store_after : Negotiator S → Bool → ℕ → PendingEntry → TrustStore
  store_after n remembers secs e =
      if remembers then remember n.store e.node_id e.node_name secs else n.store

  respond_allowed :
      (n : Negotiator S) (id : ℕ) (remembers : Bool) (secs : ℕ) (e : PendingEntry) (g : ShareGrant)
      → lookup id n.pendings ≡ some e
      → (grant_entry ops n.app (store_after n remembers secs e) e).0 ≡ ok g
      → (respond ops n id true remembers secs).0 ≡ ok (some g)
  unfolding respond
  respond_allowed n id remembers secs e g there grants = ground (arith, there, grants)

  -- A request that is confirmed after its endpoint has gone is granted all the same, whenever the kernel
  -- can issue a token: not the endpoint, but a new session for the microphone with that token.
  pub respond_gone :
      (n : Negotiator S) (id : ℕ) (remembers : Bool) (secs : ℕ) (e : PendingEntry)
      (eid : EndpointId) (view : ShareTokenView)
      → lookup id n.pendings ≡ some e
      → e.endpoint_id ≡ some eid
      → ops.endpoint_manifest n.app eid ≡ none
      → (ops.issue_share_token_for n.app (shared_by (e.node_name)) (mic ∷ [])).0 ≡ ok view
      → (g : ShareGrant) × ((respond ops n id true remembers secs).0 ≡ ok (some g))
        × (g.view ≡ view)
        × (g.delivery ≡ none)
  unfolding compose_grant
  respond_gone n id remembers secs e eid view there h gone issued =
      let store = store_after n remembers secs e in
      let (g, granted_g, v, d) =
        token_granted n.app (is_trusted store e.node_id) (mic ∷ []) (shared_by (e.node_name)) view
          issued in
      (
        g,
        respond_allowed n id remembers secs e g there
            (ap (λ r. r.0) (grant_entry_gone n.app store e eid h gone) ∙ granted_g),
        v,
        d,
      )

  checked_grant :
      (app : S) (t : Bool) (m : EndpointManifest) (strategy_id : Option ℕ) (stream_id : ℕ)
      (g : ShareGrant)
      → (checked_strategy ops m strategy_id >>= λ s. ok (endpoint_grant ops app t m stream_id s))
        ≡ ok g
      → (g ≡ endpoint_grant ops app t m stream_id (ops.strategy_of m strategy_id))
        × (ops.has_loader (ops.strategy_of m strategy_id) ≡ true)
  unfolding checked_strategy
  checked_grant app t m strategy_id stream_id g e =
      elim (Bool-cases (ops.has_loader (ops.strategy_of m strategy_id))) [
        | inl h ↦ (ground (arith, e, h), h)
        | inr h ↦ absurd (ground (arith, e, h))
      ]

  -- A grant for an endpoint is to be pulled and carries no token, its strategy is the one the subscriber
  -- has chosen and can be loaded, and its stream is the one shared already or else the one derived from
  -- the endpoint.
  pub compose_grant-pull :
      (app : S) (store : TrustStore) (node : ℕ) (m : EndpointManifest) (strategy_id : Option ℕ)
      (media : List MediaKind) (title : Title) (g : ShareGrant)
      → (compose_grant ops app store node (some m) strategy_id media title).0 ≡ ok g
      → (g.view.token ≡ [])
        × (g.delivery ≡ some pull)
        × (g.strategy ≡ some (ops.strategy_of m strategy_id))
        × (ops.has_loader (ops.strategy_of m strategy_id) ≡ true)
        × ((ops.active_share_by_endpoint app (id_of m) ≡ some (g.view.stream_id))
            ⊎ (g.view.stream_id ≡ ops.derive_stream_id (id_of m) m.transport_profile m.pick_rule))
  unfolding compose_grant new_share endpoint_grant
  compose_grant-pull app store node m strategy_id media title g e =
      elim (Option-cases (ops.active_share_by_endpoint app (id_of m))) [
        | inl fresh ↦
            let stream_id = ops.derive_stream_id (id_of m) m.transport_profile m.pick_rule in
            let made = ops.ensure_session_with_id app stream_id title in
            elim (Result-cases (made.0)) [
              | inl (u, there) ↦
                  let (same, loads) =
                    checked_grant (made.1) (is_trusted store node) m strategy_id stream_id g
                      (ground (arith, e, fresh, there)) in
                  rw same (refl, refl, refl, loads, inr refl)
              | inr (f, failed) ↦ absurd (ground (arith, e, fresh, failed))
            ]
        | inr (sid, shared) ↦
            let (same, loads) =
              checked_grant app (is_trusted store node) m strategy_id sid g
                (ground (arith, e, shared)) in
            rw same (refl, refl, refl, loads, inl shared)
      ]
