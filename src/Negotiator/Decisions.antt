-- ===== src/Negotiator/Decisions.antt =====
-- What the decisions of the policy mean.
use stross.Base.{
  ℕ, ◌≡◌, refl, List, [], ◌∷◌, Option, none, some, Bool-cases, Option-cases, true, inl, inr, ◌⊎◌,
  ◌↔◌, ◌==◌, ==→eq, arith,
}
use stross.Base.Assoc.{lookup}
use stross.Negotiator.{
  TrustStore, TrustedNode, EndpointManifest, Visibility, policy_decision, trusted_decision,
  visibility_decision, any_node, is_trusted, grant, private, public, confirm,
}

abbrev pub Trusted : TrustStore → ℕ → Type 0
Trusted store node = (t : TrustedNode) × (lookup node store ≡ some t)

abbrev pub Listed : ℕ → List ℕ → Type 0
Listed node [] = ⊥
Listed node (n ∷ nodes) = (n ≡ node) ⊎ Listed node nodes

abbrev pub Admits : TrustStore → Visibility → ℕ → Type 0
Admits store public node = Unit {0}
Admits store confirm node = Trusted store node
Admits store (private nodes) node = Listed node nodes

-- Without an endpoint the requester is trusted; an endpoint is public, or asks for trust, or lists the
-- requester.
abbrev pub Authorized : TrustStore → Option EndpointManifest → ℕ → Type 0
Authorized store none node = Trusted store node
Authorized store (some m) node = Admits store m.visibility node

trusted_decision-grant :
    (store : TrustStore) (node : ℕ) → trusted_decision store node ≡ grant → Trusted store node
unfolding trusted_decision is_trusted
trusted_decision-grant store node e = elim (Option-cases (lookup node store)) [
  | inl none_there ↦ absurd (ground (arith, e, none_there))
  | inr t ↦ t
]

Trusted-grant :
    (store : TrustStore) (node : ℕ) → Trusted store node → trusted_decision store node ≡ grant
unfolding trusted_decision is_trusted
Trusted-grant store node (t, e) = ground (arith, e)

pub any_node-Listed : (node : ℕ) (nodes : List ℕ) → any_node node nodes ≡ true → Listed node nodes
unfolding any_node
any_node-Listed node [] e = absurd (ground (arith, e))
any_node-Listed node (n ∷ nodes) e = elim (Bool-cases (n == node)) [
  | inl same ↦ inl (==→eq n node same)
  | inr other ↦ inr (any_node-Listed node nodes (ground (arith, e, other)))
]

Listed-any_node : (node : ℕ) (nodes : List ℕ) → Listed node nodes → any_node node nodes ≡ true
unfolding any_node
Listed-any_node node [] l = absurd l
Listed-any_node node (n ∷ nodes) (inl e) = ground arith
Listed-any_node node (n ∷ nodes) (inr l) = ground (arith, Listed-any_node node nodes l)

visibility_decision-Admits :
    (store : TrustStore) (v : Visibility) (node : ℕ)
    → (visibility_decision store v node ≡ grant) ↔ Admits store v node
unfolding visibility_decision
visibility_decision-Admits store public node = ((λ e. tt), (λ u. refl))
visibility_decision-Admits store confirm node =
    (trusted_decision-grant store node, Trusted-grant store node)
visibility_decision-Admits store (private nodes) node = (
  (λ e. any_node-Listed node nodes (ground (arith, e))),
  (λ l. rw (Listed-any_node node nodes l) refl),
)

-- A request is granted at once exactly when the requester is authorized.
pub policy_decision-Authorized :
    (store : TrustStore) (endpoint : Option EndpointManifest) (node : ℕ)
    → (policy_decision store endpoint node ≡ grant) ↔ Authorized store endpoint node
unfolding policy_decision
policy_decision-Authorized store none node =
    (trusted_decision-grant store node, Trusted-grant store node)
policy_decision-Authorized store (some m) node = visibility_decision-Admits store m.visibility node
