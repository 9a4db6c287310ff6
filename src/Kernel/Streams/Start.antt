-- ===== src/Kernel/Streams/Start.antt =====
-- What starting a stream leaves behind.
use mathlib.Core.Logic.{ite}
use stross.Base.{
  ℕ, suc, ◌%◌, ◌^◌, ◌≡◌, sym, ap, ◌∙◌, true, false, [], ◌∷◌, Option, none, some, arith, inl, inr,
  Bool-cases,
}
use stross.Base.Keyed
use stross.Base.Keyed.{is_some, lookup-insert, none_of_is_some}
use stross.Base.Result.{ok, Result-cases}
use stross.Proto.Message.{Text, Text-discrete}
use stross.Kernel.Types.{Kernel}
use stross.Kernel.Auth.{get_session}
use stross.Kernel.Sessions.{has_session, build_session, new_session}
use stross.Kernel.Tokens.{sess_id, titled, local_name}
use stross.Kernel.Streams.{
  StreamConfig, RunningStream, StartResult, Senders, Streams, ensure_session, register, launch,
  chosen_url, start_stream, new_stream,
}

ensure_session-has :
    (k k' : Kernel) (cfg cfg' : StreamConfig)
    → ensure_session k cfg ≡ ok (k', cfg')
    → is_some cfg.share_token ≡ false
    → is_some k.data_plane ≡ true
    → has_session k' cfg'.stream_id ≡ true
unfolding ensure_session build_session has_session get_session new_session
ensure_session-has k k' cfg cfg' e bare attached = elim (Bool-cases (has_session k cfg.stream_id)) [
  | inl known ↦ ground (arith, e, bare, attached, known)
  | inr new ↦ ground (
    arith,
    e,
    bare,
    attached,
    new,
    lookup-insert Text-discrete (sess_id k.next_id) (sess_id k.next_id)
        (new_session (record k { next_id = suc k.next_id % 2 ^ 64 }) (sess_id k.next_id) local_name
          (local_name ∷ []) (titled cfg.title))
        k.sessions,
  )
]

record Registered (s s' : Streams) (id j : Text) (port : ℕ) : Type 0 where
  running : RunningStream
  named : running.stream_id ≡ id
  reached : running.relay_port ≡ port
  was_free : Keyed.lookup Text-discrete id s.engines ≡ none
  table :
      Keyed.lookup Text-discrete j s'.engines
      ≡ ite (Text-discrete j id) (some running) (Keyed.lookup Text-discrete j s.engines)

register-Registered :
    (ops : Senders) (s s' : Streams) (cfg : StreamConfig) (relay_url : Option Text)
    (port : Option ℕ) (engine now : ℕ) (result : StartResult) (j : Text)
    → register ops s cfg relay_url port engine now ≡ (s', ok result)
    → Registered s s' result.stream_id j result.relay_port
      × (result.stream_id ≡ cfg.stream_id)
      × (s'.kernel ≡ s.kernel)
unfolding register new_stream
register-Registered ops s s' cfg relay_url port engine now result j e =
    elim (Bool-cases (is_some (Keyed.lookup Text-discrete cfg.stream_id s.engines))) [
      | inl taken ↦ absurd (ground (arith, e, taken))
      | inr free ↦
          let own : result.stream_id ≡ cfg.stream_id = ground (arith, e, free) in
          (
            record {
              running = new_stream s cfg port engine now;
              named = sym own;
              reached = ground (arith, e, free);
              was_free =
                  ap (λ i. Keyed.lookup Text-discrete i s.engines) own ∙ none_of_is_some _ free;
              table = ground (
                arith,
                e,
                free,
                own,
                lookup-insert Text-discrete cfg.stream_id j (new_stream s cfg port engine now)
                    s.engines,
              );
            },
            own,
            ground (arith, e, free),
          )
    ]

launch-Registered :
    (ops : Senders) (s s' : Streams) (cfg : StreamConfig) (relay_url : Option Text) (now : ℕ)
    (result : StartResult) (j : Text)
    → launch ops s cfg relay_url now ≡ (s', ok result)
    → Registered s s' result.stream_id j result.relay_port
      × (result.stream_id ≡ cfg.stream_id)
      × (s'.kernel ≡ s.kernel)
unfolding launch
launch-Registered ops s s' cfg relay_url now result j e =
    elim (Result-cases (ops.start cfg relay_url)) [
      | inr (_, bad) ↦ absurd (ground (arith, e, bad))
      | inl (port, fine) ↦
          let (r, own, kept) =
            register-Registered ops
              (record s { started = s.next_engine ∷ s.started; next_engine = suc s.next_engine }) s'
              cfg relay_url port s.next_engine now result j (ground (arith, e, fine)) in
          (
            record {
              running = r.running;
              named = r.named;
              reached = r.reached;
              was_free = r.was_free;
              table = r.table;
            },
            own,
            kept,
          )
    ]

-- When starting a stream without a share token succeeds on a kernel with a data plane: the id in the
-- answer has a session, no engine had the id before, and the table of engines is the old one with an
-- entry for this id put in, which holds this id and the port of the answer.
pub start_stream-Registered :
    (ops : Senders) (s s' : Streams) (cfg : StreamConfig) (relay_url : Option Text) (now : ℕ)
    (result : StartResult) (j : Text)
    → start_stream ops s cfg relay_url now ≡ (s', ok result)
    → is_some cfg.share_token ≡ false
    → is_some s.kernel.data_plane ≡ true
    → (has_session s'.kernel result.stream_id ≡ true)
      × (Keyed.lookup Text-discrete result.stream_id s.engines ≡ none)
      × (running : RunningStream) × (Keyed.lookup Text-discrete j s'.engines
          ≡ ite
              (Text-discrete j result.stream_id)
              (some running)
              (Keyed.lookup Text-discrete j s.engines))
      × (running.stream_id ≡ result.stream_id)
      × (running.relay_port ≡ result.relay_port)
unfolding start_stream
start_stream-Registered ops s s' cfg relay_url now result j e bare attached =
    elim (Bool-cases s.backend) [
      | inr none_there ↦ absurd (ground (arith, e, none_there))
      | inl ready ↦ elim (Result-cases (ensure_session s.kernel cfg)) [
        | inr (_, bad) ↦ absurd (ground (arith, e, ready, bad))
        | inl ((k, cfg'), made) ↦
            let (r, own, kept) =
              launch-Registered ops (record s { kernel = k }) s' cfg'
                (chosen_url ops s cfg' relay_url) now result j (ground (arith, e, ready, made)) in
            (
              ground (arith, own, kept, ensure_session-has s.kernel k cfg cfg' made bare attached),
              r.was_free,
              r.running,
              r.table,
              r.named,
              r.reached,
            )
      ]
    ]
