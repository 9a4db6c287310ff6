-- ===== src/Kernel/Streams/Taken.antt =====
-- Starting a stream that is running.
use stross.Base.{
  ℕ, suc, ◌<◌, sym, subst, ◌≡◌, ap, ◌∙◌, true, false, ◌∷◌, Option, some, arith, inl, inr,
  Bool-cases,
}
use stross.Base.Keyed
use stross.Base.Keyed.{is_some, lookup-insert, none_of_is_some}
use stross.Base.Result.{ok, err, Result-cases}
use stross.Proto.Message.{Text, Text-discrete}
use stross.Kernel.Types.{Kernel, already_streaming}
use stross.Kernel.Sessions.{has_session}
use stross.Kernel.Streams.{
  StreamConfig, RunningStream, StartResult, Senders, Streams, ensure_session, register, launch,
  chosen_url, start_stream, new_stream,
}
use stross.Kernel.Streams.Start.{start_stream-Registered}

-- For an id that has a session, the session manager has nothing to add.
ensure_session-known :
    (k : Kernel) (cfg : StreamConfig)
    → has_session k cfg.stream_id ≡ true
    → ensure_session k cfg ≡ ok (k, cfg)
unfolding ensure_session
ensure_session-known k cfg e = ground (arith, e)

-- Each engine in the table was started before.
abbrev pub Numbered : Streams → Type 0
Numbered s =
    (j : Text) (r : RunningStream)
    → Keyed.lookup Text-discrete j s.engines ≡ some r
    → r.engine < s.next_engine

-- The engine of this number is in the table.
abbrev pub InTable : Streams → ℕ → Type 0
InTable s n =
    (j : Text) × (r : RunningStream) × (Keyed.lookup Text-discrete j s.engines ≡ some r)
    × (r.engine ≡ n)

register-Numbered :
    (ops : Senders) (s : Streams) (cfg : StreamConfig) (relay_url : Option Text) (port : Option ℕ)
    (engine now : ℕ)
    → engine < s.next_engine
    → Numbered s
    → Numbered ((register ops s cfg relay_url port engine now).0)
unfolding register new_stream
register-Numbered ops s cfg relay_url port engine now young old =
    elim (Bool-cases (is_some (Keyed.lookup Text-discrete cfg.stream_id s.engines))) [
      | inl taken ↦ λ j r e. ground (arith, taken, old j r, e)
      | inr free ↦ λ j r e. ground (
        arith,
        free,
        old j r,
        e,
        young,
        lookup-insert Text-discrete cfg.stream_id j (new_stream s cfg port engine now) s.engines,
      )
    ]

launch-Numbered :
    (ops : Senders) (s : Streams) (cfg : StreamConfig) (relay_url : Option Text) (now : ℕ)
    → Numbered s
    → Numbered ((launch ops s cfg relay_url now).0)
unfolding launch
launch-Numbered ops s cfg relay_url now old = elim (Result-cases (ops.start cfg relay_url)) [
  | inr (_, bad) ↦ λ j r e. ground (arith, bad, old j r, e)
  | inl (port, fine) ↦
      let counted : Streams = record s {
        started = s.next_engine ∷ s.started;
        next_engine = suc s.next_engine;
      } in
      let kept =
        register-Numbered ops counted cfg relay_url port s.next_engine now (omega arith)
          (λ j r e. omega (arith, old j r e)) in
      λ j r e. ground (arith, fine, kept j r, e)
]

start_stream-launch :
    (ops : Senders) (s : Streams) (cfg : StreamConfig) (relay_url : Option Text) (now : ℕ)
    (k : Kernel) (cfg' : StreamConfig)
    → s.backend ≡ true
    → ensure_session s.kernel cfg ≡ ok (k, cfg')
    → (start_stream ops s cfg relay_url now).0
      ≡ (launch ops (record s { kernel = k }) cfg' (chosen_url ops s cfg' relay_url) now).0
unfolding start_stream
start_stream-launch ops s cfg relay_url now k cfg' ready made = ground (arith, ready, made)

-- Starting a stream keeps this, with or without success.
pub start_stream-Numbered :
    (ops : Senders) (s : Streams) (cfg : StreamConfig) (relay_url : Option Text) (now : ℕ)
    → Numbered s
    → Numbered ((start_stream ops s cfg relay_url now).0)
unfolding start_stream
start_stream-Numbered ops s cfg relay_url now old = elim (Bool-cases s.backend) [
  | inr none_there ↦ λ j r e. ground (arith, none_there, old j r, e)
  | inl ready ↦ elim (Result-cases (ensure_session s.kernel cfg)) [
    | inr (_, bad) ↦ λ j r e. ground (arith, ready, bad, old j r, e)
    | inl ((k, cfg'), made) ↦
        let with_k : Streams = record s { kernel = k } in
        subst Numbered (sym (start_stream-launch ops s cfg relay_url now k cfg' ready made))
          (launch-Numbered ops with_k cfg' (chosen_url ops s cfg' relay_url) now old)
  ]
]

start-known :
    (ops : Senders) (s : Streams) (cfg : StreamConfig) (relay_url : Option Text) (now : ℕ)
    (port : Option ℕ)
    → s.backend ≡ true
    → has_session s.kernel cfg.stream_id ≡ true
    → is_some (Keyed.lookup Text-discrete cfg.stream_id s.engines) ≡ true
    → ops.start cfg (chosen_url ops s cfg relay_url) ≡ ok port
    → let (s', answer) = start_stream ops s cfg relay_url now in
      (answer ≡ err already_streaming)
      × (s'.engines ≡ s.engines)
      × (s'.started ≡ s.next_engine ∷ s.started)
unfolding start_stream launch register
start-known ops s cfg relay_url now port ready known taken started =
    let e = ensure_session-known s.kernel cfg known in
    (
      ground (arith, ready, e, taken, started),
      ground (arith, ready, e, taken, started),
      ground (arith, ready, e, taken, started),
    )

-- A stream without a share token was started on a kernel with a data plane, where every engine in
-- the table was started before. Starting a stream under the id of the answer again, with a backend, is
-- refused if the engine itself starts; but then this second engine was started and is not in the
-- table of engines, which is the same as before.
pub start_stream-taken :
    (ops : Senders) (s s' : Streams) (cfg again : StreamConfig) (relay_url relay_url' : Option Text)
    (now now' : ℕ) (result : StartResult) (port : Option ℕ)
    → Numbered s
    → start_stream ops s cfg relay_url now ≡ (s', ok result)
    → is_some cfg.share_token ≡ false
    → is_some s.kernel.data_plane ≡ true
    → again.stream_id ≡ result.stream_id
    → s'.backend ≡ true
    → ops.start again (chosen_url ops s' again relay_url') ≡ ok port
    → let (t, answer) = start_stream ops s' again relay_url' now' in
      (answer ≡ err already_streaming)
      × (t.engines ≡ s'.engines)
      × (t.started ≡ s'.next_engine ∷ s'.started)
      × ¬ (InTable t s'.next_engine)
start_stream-taken ops s s' cfg again relay_url relay_url' now now' result port old e bare attached
      same ready started =
    let (has, free, r, table, named, reached) =
      start_stream-Registered ops s s' cfg relay_url now result result.stream_id e bare attached in
    let known : has_session s'.kernel again.stream_id ≡ true =
      ap (has_session s'.kernel) same ∙ has in
    let taken : is_some (Keyed.lookup Text-discrete again.stream_id s'.engines) ≡ true =
      ground (arith, same, table) in
    let (refuses, kept, begun) =
      start-known ops s' again relay_url' now' port ready known taken started in
    let young : Numbered s' =
      subst Numbered (ap (λ p. p.0) e) (start_stream-Numbered ops s cfg relay_url now old) in
    (
      refuses,
      kept,
      begun,
      λ (j, x, found, own).
          omega
            (arith, own, young j x (ap (λ m. Keyed.lookup Text-discrete j m) (sym kept) ∙ found)),
    )
