-- ===== src/Negotiator/Policy.antt =====
-- When a request is granted.
use stross.Base.{
  ℕ, ◌≡◌, refl, sym, ap, ◌∙◌, List, Option, none, some, Bool-cases, Option-cases, true, inl, inr,
  ◌⊎◌, arith,
}
use stross.Negotiator.{
  TrustStore, EndpointManifest, policy_decision, visibility_decision, any_node, KernelOps,
  Negotiator, ShareRequest, ShareGrant, Answer, granted, forbidden, bad_request, not_found,
  internal_error, gateway_timeout, parked, Waited, allowed, refused, elapsed, closed, EndpointId,
  decide, asked, begin_request, resume, answered, time_out, handle_request, manifest_of, grant,
  reject, pending, private,
}
use stross.Negotiator.Decisions.{Listed, Authorized, any_node-Listed, policy_decision-Authorized}

module _ {S : Type 0} (ops : KernelOps S) where
  -- No endpoint is asked for, or the one asked for is there and available.
  abbrev pub Available : Negotiator S → ShareRequest → Type 0
  Available n req =
      (asked req ≡ none)
      ⊎ ((m : EndpointManifest) × (manifest_of ops n.app (asked req) ≡ some m)
          × (m.available ≡ true))

  decide-grant :
      (n : Negotiator S) (req : ShareRequest) (endpoint : Option EndpointManifest) (g : ShareGrant)
      → (decide ops n req endpoint).0 ≡ granted g
      → policy_decision n.store endpoint req.node_id ≡ grant
  unfolding decide
  decide-grant n req endpoint g e = ground (arith, e)

  decide-parked :
      (n : Negotiator S) (req : ShareRequest) (endpoint : Option EndpointManifest) (id : ℕ)
      → (decide ops n req endpoint).0 ≡ parked id
      → policy_decision n.store endpoint req.node_id ≡ pending
  unfolding decide
  decide-parked n req endpoint id e = ground (arith, e)

  begin_none :
      (n : Negotiator S) (req : ShareRequest)
      → asked req ≡ none
      → (begin_request ops n req ≡ (bad_request, n))
        ⊎ (begin_request ops n req ≡ decide ops n req none)
  unfolding begin_request
  begin_none n req e = ground arith

  begin_some :
      (n : Negotiator S) (req : ShareRequest) (eid : EndpointId)
      → asked req ≡ some eid
      → (begin_request ops n req ≡ (not_found, n))
        ⊎ ((m : EndpointManifest) × (ops.endpoint_manifest n.app eid ≡ some m)
            × (m.available ≡ true)
            × (begin_request ops n req ≡ decide ops n req (some m)))
  unfolding begin_request
  begin_some n req eid e = elim (Option-cases (ops.endpoint_manifest n.app eid)) [
    | inl gone ↦ inl (ground (arith, e, gone))
    | inr (m, there) ↦ elim (Bool-cases m.available) [
      | inl up ↦ inr (m, there, up, ground (arith, e, there, up))
      | inr down ↦ inl (ground (arith, e, there, down))
    ]
  ]

  -- A request fails at once, or the policy decides about what it asks for, which is available.
  begin-cases :
      (n : Negotiator S) (req : ShareRequest)
      → ((begin_request ops n req ≡ (bad_request, n)) ⊎ (begin_request ops n req ≡ (not_found, n)))
        ⊎ ((begin_request ops n req ≡ decide ops n req (manifest_of ops n.app (asked req)))
            × Available n req)
  unfolding manifest_of
  begin-cases n req = elim (Option-cases (asked req)) [
    | inl nothing ↦
        let here : manifest_of ops n.app (asked req) ≡ none = ap (manifest_of ops n.app) nothing in
        elim (begin_none n req nothing) [
          | inl bad ↦ inl (inl bad)
          | inr d ↦ inr (d ∙ ap (decide ops n req) (sym here), inl nothing)
        ]
    | inr (eid, e) ↦ elim (begin_some n req eid e) [
      | inl bad ↦ inl (inr bad)
      | inr (m, there, up, d) ↦
          let here : manifest_of ops n.app (asked req) ≡ some m =
            ap (manifest_of ops n.app) e ∙ there in
          inr (d ∙ ap (decide ops n req) (sym here), inr (m, here, up))
    ]
  ]

  module _ (wait : ℕ → Negotiator S → Waited × Negotiator S) where
    -- The user was asked, since the policy does not decide, and the request was told this grant.
    abbrev pub Confirmed : Negotiator S → ShareRequest → ShareGrant → Type 0
    Confirmed n req g =
        (id : ℕ) × ((begin_request ops n req).0 ≡ parked id)
        × (policy_decision n.store (manifest_of ops n.app (asked req)) req.node_id ≡ pending)
        × ((wait id (begin_request ops n req).1).0 ≡ allowed g)

    resume-granted :
        (n : Negotiator S) (id : ℕ) (w : Waited) (g : ShareGrant)
        → (resume ops n id w).0 ≡ granted g
        → w ≡ allowed g
    unfolding resume time_out
    resume-granted n id (allowed h) g e = ground (arith, e)
    resume-granted n id refused g e = absurd (ground (arith, e))
    resume-granted n id elapsed g e = absurd (ground (arith, e))
    resume-granted n id closed g e = absurd (ground (arith, e))

    answered-granted :
        (p : Answer × Negotiator S) (g : ShareGrant)
        → (answered ops wait p).0 ≡ granted g
        → (p.0 ≡ granted g) ⊎ ((id : ℕ) × (p.0 ≡ parked id) × ((wait id p.1).0 ≡ allowed g))
    unfolding answered
    answered-granted (parked id, n) g e =
        inr (id, refl, resume-granted ((wait id n).1) id ((wait id n).0) g e)
    answered-granted (granted h, n) g e = inl e
    answered-granted (bad_request, n) g e = absurd (ground (arith, e))
    answered-granted (forbidden, n) g e = absurd (ground (arith, e))
    answered-granted (not_found, n) g e = absurd (ground (arith, e))
    answered-granted (internal_error, n) g e = absurd (ground (arith, e))
    answered-granted (gateway_timeout, n) g e = absurd (ground (arith, e))

    -- A request that is answered with a grant, at once or after waiting for the user: what it asks for,
    -- if it asks for an endpoint, was there and available when it came, and either the node was
    -- authorized for it then, or the policy left it to the user and the request was told this grant
    -- while it waited.
    pub handle_request-Authorized :
        (n : Negotiator S) (req : ShareRequest) (g : ShareGrant)
        → (handle_request ops wait n req).0 ≡ granted g
        → Available n req
          × (Authorized n.store (manifest_of ops n.app (asked req)) req.node_id ⊎ Confirmed n req g)
    unfolding handle_request
    handle_request-Authorized n req g e = elim (begin-cases n req) [
      | inl (inl bad) ↦ absurd (ground (arith, e, bad, answered-granted (bad_request, n) g))
      | inl (inr bad) ↦ absurd (ground (arith, e, bad, answered-granted (not_found, n) g))
      | inr (d, there) ↦
          let endpoint = manifest_of ops n.app (asked req) in
          (
            there,
            elim (answered-granted (begin_request ops n req) g e) [
              | inl now ↦ inl (
                  (policy_decision-Authorized n.store endpoint req.node_id).0
                    (decide-grant n req endpoint g (ap (λ r. r.0) (sym d) ∙ now)))
              | inr (id, waits, told) ↦
                  inr (
                    id,
                    waits,
                    decide-parked n req endpoint id (ap (λ r. r.0) (sym d) ∙ waits),
                    told,
                  )
            ],
          )
    ]

    decide_rejected :
        (n : Negotiator S) (req : ShareRequest) (endpoint : Option EndpointManifest)
        → policy_decision n.store endpoint req.node_id ≡ reject
        → decide ops n req endpoint ≡ (forbidden, n)
    unfolding decide
    decide_rejected n req endpoint e = rw (decide, e) refl

    refused_by :
        (store : TrustStore) (m : EndpointManifest) (node : ℕ) (nodes : List ℕ)
        → m.visibility ≡ private nodes
        → (Listed node nodes → ⊥)
        → policy_decision store (some m) node ≡ reject
    unfolding policy_decision visibility_decision
    refused_by store m node nodes v l = elim (Bool-cases (any_node node nodes)) [
      | inl e ↦ absurd (l (any_node-Listed node nodes e))
      | inr e ↦ rw (v, e) refl
    ]

    request_available :
        (n : Negotiator S) (req : ShareRequest) (m : EndpointManifest)
        → manifest_of ops n.app (asked req) ≡ some m
        → m.available ≡ true
        → begin_request ops n req ≡ decide ops n req (some m)
    unfolding begin_request manifest_of
    request_available n req m h a = ground (arith, h, a)

    -- An available endpoint that does not list the requester refuses it, and nothing changes.
    pub handle_request-private :
        (n : Negotiator S) (req : ShareRequest) (m : EndpointManifest) (nodes : List ℕ)
        → manifest_of ops n.app (asked req) ≡ some m
        → m.available ≡ true
        → m.visibility ≡ private nodes
        → (Listed req.node_id nodes → ⊥)
        → handle_request ops wait n req ≡ (forbidden, n)
    unfolding handle_request answered
    handle_request-private n req m nodes h a v l = ap (answered ops wait) (
        request_available n req m h a
        ∙ decide_rejected n req (some m) (refused_by n.store m req.node_id nodes v l))
