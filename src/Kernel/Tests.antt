-- ===== src/Kernel/Tests.antt =====
-- The theorems on sessions at concrete kernels.
use native.Mathlib.Decide.{ℕ_discrete}
use stross.Base.{arith, ◌≡◌, refl, ◌<◌, true, false, [], ◌∷◌, Option, none, some}
use mathlib.Core.Logic.{◌↔◌}
use stross.Base.Result.{ok, err}
use stross.Proto.Message.{Text, Text-discrete}
use stross.Proto.Ids.{mic}
use stross.Proto.Ids.Derive.{lossy}
use stross.Relay.{RelayState, ShareToken, with_ports, authorize_stream, is_allowed}
use stross.Relay.Laws.{IsRelay, is_live}
use stross.Kernel.Types.{Kernel, Session, SessionPrefs, pin_required}
use stross.Kernel.Auth.{authorize_session, get_session, set_code}
use stross.Kernel.Sessions.{
  build_session, new_session, clear, teardown, force_teardown, teardown_internal, has_session,
}
use stross.Kernel.Sessions.Pin.{answer, build_session-guarded}
use stross.Kernel.Tokens.{create_share_token, new_token, relay_at, retain_unexpired}
use stross.Kernel.Tokens.Gone.{teardown_internal-Gone}
use stross.Kernel.Tokens.Admits.{create_share_token-admits}
use mathlib.Core.Logic.{ite}
use stross.Base.Keyed
use stross.Base.Keyed.{is_some}
use stross.Kernel.Types.{already_streaming}
use stross.Kernel.Streams.{
  Senders, Streams, StreamConfig, RunningStream, StartResult, start_stream, ensure_session, launch,
  register, new_stream,
}
use stross.Kernel.Streams.Start.{start_stream-Registered}
use stross.Kernel.Streams.Taken.{Numbered, InTable, start_stream-taken}
use stross.Kernel.Run.{Reach, start, here, later, attach, build}
use stross.Kernel.Run.Backed.{is_allowed-has_session}

abbrev relay : RelayState
relay = with_ports true 8777 none none

abbrev id_a : Text
id_a = 97 ∷ []

abbrev attached : Kernel
attached = record (start (λ (src : Text). [])) { data_plane = some relay }

abbrev prefs : Option Text → SessionPrefs
prefs code = record { profile = lossy; preferred_transport = none; access_code = code; title = [] }

abbrev session : Option Text → Session
session code = new_session attached id_a (115 ∷ []) (id_a ∷ []) (prefs code)

abbrev with_session : Kernel
with_session = record attached {
  data_plane = some (authorize_stream relay id_a);
  sessions = (id_a, session none) ∷ [];
}

abbrev with_pin : Kernel
with_pin = record attached {
  pins = (id_a, 49 ∷ []) ∷ [];
  data_plane = some (authorize_stream relay id_a);
  sessions = (id_a, session (some (49 ∷ []))) ∷ [];
}

built :
    build_session attached id_a (115 ∷ []) (id_a ∷ []) (prefs none)
    ≡ ok (with_session, session none)
unfolding build_session start
built = refl

built_with_pin :
    build_session attached id_a (115 ∷ []) (id_a ∷ []) (prefs (some (49 ∷ [])))
    ≡ ok (with_pin, session (some (49 ∷ [])))
unfolding build_session start set_code
built_with_pin = refl

build_session-guarded_example :
    (teardown with_pin id_a ≡ err pin_required)
    × (force_teardown with_pin id_a ≡ ok (clear with_pin id_a))
    × (unlocked : Kernel) × (authorize_session with_pin id_a (some (50 ∷ []))
        ≡ answer (49 ∷ []) (some (50 ∷ [])) unlocked)
    × (teardown unlocked id_a ≡ ok (clear unlocked id_a))
build_session-guarded_example =
    build_session-guarded attached with_pin id_a (115 ∷ []) (id_a ∷ []) (prefs (some (49 ∷ [])))
      (session (some (49 ∷ []))) (49 ∷ []) (some (50 ∷ [])) built_with_pin refl

abbrev issued : ShareToken
issued = new_token id_a (mic ∷ []) 600 1000 (55 ∷ [])

abbrev with_token : Kernel
with_token = record with_session { share_tokens = (id_a, issued) ∷ [] }

-- The text `t` reads as the token that was issued.
abbrev reads : Text → Option ShareToken
reads text = some issued

made_token :
    create_share_token with_session id_a (mic ∷ []) 600 1000 (55 ∷ []) ≡ ok (with_token, issued)
unfolding create_share_token has_session get_session start retain_unexpired Text-discrete ℕ_discrete
made_token = refl

create_share_token-admits_example :
    (is_allowed reads (relay_at with_token 1599 relay) id_a (some (116 ∷ [])) false ≡ true)
    ↔ ((issued ≡ issued) × (1599 < issued.expires_at))
create_share_token-admits_example =
    create_share_token-admits reads with_session with_token id_a (mic ∷ []) 600 1000 (55 ∷ [])
      issued relay 1599 (116 ∷ []) issued made_token refl

torn_down : teardown_internal with_token id_a false ≡ ok (clear with_token id_a)
unfolding teardown_internal
torn_down = refl

authorized-IsRelay : IsRelay (authorize_stream relay id_a)
unfolding with_ports authorize_stream
authorized-IsRelay = refl

teardown_internal-Gone_example :
    (r' : RelayState) × ((clear with_token id_a).data_plane ≡ some r')
    × (has_session (clear with_token id_a) id_a ≡ false)
    × (is_live r' id_a ≡ false)
    × (is_allowed reads (relay_at (clear with_token id_a) 1599 r') id_a (some (116 ∷ [])) true
        ≡ false)
teardown_internal-Gone_example =
    teardown_internal-Gone reads with_token (clear with_token id_a) id_a false
      (authorize_stream relay id_a) 1599 (some (116 ∷ [])) true authorized-IsRelay refl torn_down

no_ids : relay.allowed ≡ []
unfolding with_ports
no_ids = refl

built_run : Reach (start (λ (src : Text). [])) with_session
built_run =
    later (later (here _) (attach _ relay no_ids))
      (build attached with_session id_a (115 ∷ []) (id_a ∷ []) (prefs none) (session none) built)

let_in :
    is_allowed reads (relay_at with_session 5 (authorize_stream relay id_a)) id_a none true ≡ true
unfolding is_allowed relay_at with_ports authorize_stream Text-discrete ℕ_discrete
let_in = refl

is_allowed-has_session_example : has_session with_session id_a ≡ true
is_allowed-has_session_example =
    is_allowed-has_session reads (λ (src : Text). []) with_session (authorize_stream relay id_a) 5
      id_a none true built_run refl let_in

-- An engine starts without a relay of its own.
abbrev senders : Senders
senders = record {
  start = λ cfg url. ok none;
  auto_push_url = λ video. [];
  watch_urls = λ url port. [];
}

abbrev idle : Streams
idle = record {
  kernel = with_session;
  engines = [];
  backend = true;
  anchor = some 9000;
  started = [];
  next_engine = 0;
}

abbrev config : StreamConfig
config = record { stream_id = id_a; title = []; share_token = none; video = true }

abbrev on_air : Streams
on_air = record idle {
  engines = (id_a, new_stream idle config none 0 5) ∷ [];
  started = 0 ∷ [];
  next_engine = 1;
}

abbrev result : StartResult
result = record { relay_port = 9000; watch_urls = []; stream_id = id_a }

begun : start_stream senders idle config none 5 ≡ (on_air, ok result)
unfolding start_stream ensure_session launch register has_session get_session start Text-discrete
    ℕ_discrete
begun = refl

start_stream-Registered_example :
    (has_session with_session id_a ≡ true)
    × (Keyed.lookup Text-discrete id_a idle.engines ≡ none)
    × (running : RunningStream) × (Keyed.lookup Text-discrete (98 ∷ []) on_air.engines
        ≡ ite
            (Text-discrete (98 ∷ []) id_a)
            (some running)
            (Keyed.lookup Text-discrete (98 ∷ []) idle.engines))
    × (running.stream_id ≡ id_a)
    × (running.relay_port ≡ 9000)
start_stream-Registered_example =
    start_stream-Registered senders idle on_air config none 5 result (98 ∷ []) begun refl refl

idle-Numbered : Numbered idle
idle-Numbered = λ j r e. absurd (ground (arith, e))

start_stream-taken_example :
    let (t, answer) = start_stream senders on_air config none 6 in
    (answer ≡ err already_streaming)
    × (t.engines ≡ on_air.engines)
    × (t.started ≡ on_air.next_engine ∷ on_air.started)
    × ¬ (InTable t on_air.next_engine)
start_stream-taken_example =
    start_stream-taken senders idle on_air config config none none 5 6 result none idle-Numbered
      begun refl refl refl refl refl
