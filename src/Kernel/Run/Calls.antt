-- ===== src/Kernel/Run/Calls.antt =====
-- What each call of the session manager keeps.
use stross.Base.{
  ℕ, suc, ◌%◌, ◌^◌, ◌≡◌, Bool, true, false, List, [], ◌∷◌, Option, none, some, arith, inl, inr, ◌⊎◌,
  Option-cases, Bool-cases,
}
use stross.Base.Keyed
use stross.Base.Keyed.{is_some, lookup-insert, lookup-remove}
use stross.Base.Result.{ok, Result-cases}
use stross.Proto.Message.{Text, Text-discrete}
use stross.Proto.Ids.{MediaKind}
use stross.Relay.{
  RelayState, ShareToken, is_authorized, authorize_stream, revoke_stream, is_expired,
}
use stross.Kernel.Types.{Kernel, Session, SessionPrefs}
use stross.Kernel.Auth.{get_session, authorize_session, mark_authorized, authorize}
use stross.Kernel.Sessions.{has_session, build_session, clear, on_relay, new_session}
use stross.Kernel.Tokens.{
  retain_unexpired, create_share_token, issue_share_token_for, new_token, sess_id, local_name,
  titled, unwrap_ttl,
}
use stross.Kernel.Tokens.Gone.{authorized-revoke_stream, get_session-clear}

abbrev pub allows : Option RelayState → Text → Bool
allows none id = false
allows (some r) id = is_authorized r id

-- Every stream id that the relay was told to let in, and every id with a token, has a session.
pub record Backed (k : Kernel) : Type 0 where
  pub allowed_in : (id : Text) → allows k.data_plane id ≡ true → has_session k id ≡ true
  pub issued_in :
      (id : Text)
      → is_some (Keyed.lookup Text-discrete id k.share_tokens) ≡ true
      → has_session k id ≡ true

allows-authorize :
    (d : Option RelayState) (id j : Text)
    → allows (on_relay (λ r. authorize_stream r id) d) j ≡ true
    → (j ≡ id) ⊎ (allows d j ≡ true)
unfolding is_authorized authorize_stream
allows-authorize none id j e = absurd (ground (arith, e))
allows-authorize (some r) id j e = elim (Text-discrete j id) [
  | yes same ↦ inl same
  | no other ↦ inr (ground (arith, e, other, lookup-insert Text-discrete id j tt r.allowed))
]

allows-revoke :
    (d : Option RelayState) (id j : Text)
    → allows (on_relay (λ r. revoke_stream r id) d) j ≡ true
    → (¬ (j ≡ id)) × (allows d j ≡ true)
allows-revoke none id j e = absurd (ground (arith, e))
allows-revoke (some r) id j e = elim (Text-discrete j id) [
  | yes same ↦ absurd (ground (arith, e, same, authorized-revoke_stream r id j))
  | no other ↦ (other, ground (arith, e, other, authorized-revoke_stream r id j))
]

retain-kept :
    (now : ℕ) (id : Text) (tokens : List (Text × ShareToken))
    → is_some (Keyed.lookup Text-discrete id (retain_unexpired now tokens)) ≡ true
    → is_some (Keyed.lookup Text-discrete id tokens) ≡ true
unfolding retain_unexpired
retain-kept now id [] e = e
retain-kept now id ((i, t) ∷ tokens) e = elim (Bool-cases (is_expired t now)) [
  | inl old ↦ elim (Text-discrete id i) [
    | yes same ↦ ground (arith, same)
    | no other ↦ ground (arith, other, e, old, retain-kept now id tokens)
  ]
  | inr fresh ↦ elim (Text-discrete id i) [
    | yes same ↦ ground (arith, same)
    | no other ↦ ground (arith, other, e, fresh, retain-kept now id tokens)
  ]
]

pub build_session-Backed :
    (k k' : Kernel) (id src : Text) (sinks : List Text) (prefs : SessionPrefs) (s : Session)
    → build_session k id src sinks prefs ≡ ok (k', s)
    → Backed k
    → Backed k' × (has_session k' id ≡ true)
unfolding build_session has_session get_session
build_session-Backed k k' id src [] prefs s e b = absurd (ground (arith, e))
build_session-Backed k k' id src (x ∷ xs) prefs s e b =
    let put = λ (j : Text).
      lookup-insert Text-discrete id j (new_session k id src (x ∷ xs) prefs) k.sessions in
    (
      record {
        allowed_in = λ j a. elim (allows-authorize k.data_plane id j (ground (arith, e, a))) [
          | inl same ↦ ground (arith, e, same, put j)
          | inr old ↦ ground (arith, e, put j, b.allowed_in j old)
        ];
        issued_in = λ j a. ground (arith, e, put j, b.issued_in j);
      },
      ground (arith, e, put id),
    )

pub clear-Backed : (k : Kernel) (id : Text) → Backed k → Backed (clear k id)
unfolding has_session clear
clear-Backed k id b = record {
  allowed_in = λ j a.
      let (other, old) = allows-revoke k.data_plane id j a in
      ground (arith, other, get_session-clear k id j, b.allowed_in j old);
  issued_in = λ j a. ground (
    arith,
    a,
    get_session-clear k id j,
    b.issued_in j,
    lookup-remove Text-discrete id j k.share_tokens,
  );
}

mark_authorized-Backed :
    (k k' : Kernel) (id : Text) → mark_authorized k id ≡ ok k' → Backed k → Backed k'
unfolding mark_authorized has_session get_session
mark_authorized-Backed k k' id e b = elim (Option-cases (get_session k id)) [
  | inl missing ↦ absurd (ground (arith, e, missing))
  | inr (s, there) ↦
      let put = λ (j : Text).
        lookup-insert Text-discrete id j (record s { authorized = true }) k.sessions in
      record {
        allowed_in = λ j a. ground (arith, e, there, put j, b.allowed_in j);
        issued_in = λ j a. ground (arith, e, there, put j, b.issued_in j);
      }
]

pub create_share_token-Backed :
    (k k' : Kernel) (id : Text) (media : List MediaKind) (ttl now : ℕ) (pin : Text) (t : ShareToken)
    → create_share_token k id media ttl now pin ≡ ok (k', t)
    → Backed k
    → Backed k'
unfolding create_share_token has_session get_session
create_share_token-Backed k k' id media ttl now pin t e b = elim (Bool-cases (has_session k id)) [
  | inr missing ↦ absurd (ground (arith, e, missing))
  | inl there ↦ record {
    allowed_in = λ j a. ground (arith, e, there, a, b.allowed_in j);
    issued_in = λ j a. elim (Text-discrete j id) [
      | yes same ↦ ground (arith, e, there, same)
      | no other ↦ ground (
        arith,
        e,
        there,
        other,
        a,
        retain-kept now j k.share_tokens,
        b.issued_in j,
        lookup-insert Text-discrete id j (new_token id media ttl now pin)
            (retain_unexpired now k.share_tokens),
      )
    ];
  }
]

pub authorize_session-Backed :
    (k k' : Kernel) (id : Text) (code : Option Text)
    → authorize_session k id code ≡ ok k'
    → Backed k
    → Backed k'
unfolding authorize_session
authorize_session-Backed k k' id code e b = elim (Result-cases (authorize k.pins id code)) [
  | inl (_, fine) ↦ mark_authorized-Backed k k' id (ground (arith, e, fine)) b
  | inr (_, bad) ↦ absurd (ground (arith, e, bad))
]

pub issue_share_token_for-Backed :
    (k k' : Kernel) (title : Text) (media : List MediaKind) (ttl : Option ℕ) (now : ℕ) (pin : Text)
    (t : ShareToken)
    → issue_share_token_for k title media ttl now pin ≡ ok (k', t)
    → Backed k
    → Backed k'
unfolding issue_share_token_for has_session get_session
issue_share_token_for-Backed k k' title media ttl now pin t e b =
    let id = sess_id k.next_id in
    let counted : Kernel = record k { next_id = suc k.next_id % 2 ^ 64 } in
    let kept : Backed counted = record { allowed_in = b.allowed_in; issued_in = b.issued_in } in
    elim (Result-cases (build_session counted id local_name (local_name ∷ []) (titled title))) [
      | inl ((made, s), built) ↦
          create_share_token-Backed made k' id media (unwrap_ttl ttl) now pin t
            (ground (arith, e, built))
            (build_session-Backed counted made id local_name (local_name ∷ []) (titled title) s
              built kept).0
      | inr (_, bad) ↦ absurd (ground (arith, e, bad))
    ]
