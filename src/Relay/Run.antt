-- ===== src/Relay/Run.antt =====
-- Tasks that work on one relay at the same time: the steps of crates/stross-kernel/src/relay/data_plane.rs
-- and state.rs between which another task may come.
-- A Hello takes three steps: its tests, the insertion and the report of the start, since the table is locked
-- for each of the first two alone and the report is sent after that. Likewise for `start_proxy`; its
-- lock on the proxies, which only takes interleavings away, is left out. What removes a stream reports
-- the end in a further step.
pub mod Counts
pub mod Events
pub mod Gate
mod Tests
use mathlib.Core.Logic.{ite}
use native.Mathlib.Decide.{ℕ_discrete}
use stross.Base.{
  ℕ, suc, ◌≡◌, Bool, true, false, List, [], ◌∷◌, ◌++◌, Option, none, some, if◌then◌else◌,
}
use stross.Base.Keyed
use stross.Base.Keyed.{is_some}
use stross.Base.Result.{ok}
use stross.Proto.Message.{Text, Text-discrete}
use stross.Proto.Frame.{Frame}
use stross.Relay.{
  RelayState, RelayEvent, StreamInfo, ProxyEntry, ShareToken, stream_started, stream_ended,
  watchers_changed, with_ports, authorize_stream, set_token_validator, forward, emit, add_stream,
  remove, start_proxy, abort_proxies, unwrap_or, placeholder,
}
use stross.Relay.Laws.{IsRelay, is_live}
use stross.Relay.Push.{Hello, admits, hello_info}

-- Where a task stands: with the stream it pushes, if any; with a Hello or a proxy that has passed the
-- tests; with a stream that is in the table and whose start it is to report, and what it pushes then; or
-- about to remove a stream.
pub data Place : Type 0 where
  at_rest : Option Text → Place
  tested : Hello → Place
  proxying : (upstream id : Text) → StreamInfo → Place
  entered : RelayEvent → Option Text → Place
  leaving : Text → Place

-- `unreported` has the events that tasks are still to send.
pub record System : Type 0 where
  pub relay : RelayState
  pub place : ℕ → Place
  pub unreported : List RelayEvent

abbrev pub move : System → ℕ → RelayState → List RelayEvent → Place → System
move u i r evs p = record {
  relay = r;
  place = λ j. ite (ℕ_discrete i j) p (u.place j);
  unreported = evs;
}

-- The proxy is noted with its task, which will pull from the upstream relay.
unfoldable pub note_proxy : RelayState → Text → Text → RelayState
note_proxy s upstream id = record s {
  proxies =
      Keyed.insert Text-discrete id (record { upstream = upstream; task = s.next_task }) s.proxies;
  next_task = suc s.next_task;
}

unfoldable pub forget_proxy : RelayState → Text → RelayState
forget_proxy s id = record s { proxies = Keyed.remove Text-discrete id s.proxies }

unfoldable pub disallow : RelayState → Text → RelayState
disallow s id = record s { allowed = Keyed.remove Text-discrete id s.allowed }

module _ (from_token_string : Text → Option ShareToken) where
  pub data Step (u : System) : System → Type 0 where
    test :
        (i : ℕ) (sid : Option Text) (h : Hello) (local : Bool)
        → u.place i ≡ at_rest sid
        → admits from_token_string u.relay h local ≡ true
        → is_live u.relay h.stream_id ≡ false
        → Step u (move u i u.relay u.unreported (tested h))
    enter :
        (i : ℕ) (h : Hello) (now : ℕ)
        → u.place i ≡ tested h
        → Step u (
            move u i
              (add_stream u.relay (hello_info h now))
              (stream_started h.stream_id (hello_info h now) ∷ u.unreported)
              (entered (stream_started h.stream_id (hello_info h now)) (some h.stream_id)))
    test_proxy :
        (i : ℕ) (upstream id : Text) (info : Option StreamInfo) (now : ℕ)
        → u.place i ≡ at_rest none
        → (unwrap_or info (placeholder id now)).stream_id ≡ id
        → (start_proxy u.relay upstream id info now).0 ≡ ok id
        → Step u (
            move u i u.relay u.unreported
              (proxying upstream id (unwrap_or info (placeholder id now))))
    enter_proxy :
        (i : ℕ) (upstream id : Text) (info : StreamInfo)
        → info.stream_id ≡ id
        → u.place i ≡ proxying upstream id info
        → Step u (
            move u i
              (note_proxy (add_stream u.relay info) upstream id)
              (stream_started id info ∷ u.unreported)
              (entered (stream_started id info) none))
    report :
        (i : ℕ) (ev : RelayEvent) (sid : Option Text) (before after : List RelayEvent)
        → u.place i ≡ entered ev sid
        → u.unreported ≡ before ++ ev ∷ after
        → Step u (move u i (emit u.relay ev) (before ++ after) (at_rest sid))
    push :
        (i : ℕ) (id : Text) (f : Frame)
        → u.place i ≡ at_rest (some id)
        → Step u (record u { relay = forward u.relay id f })
    pull : (id : Text) (f : Frame) → Step u (record u { relay = forward u.relay id f })
    leave :
        (i : ℕ) (id : Text)
        → u.place i ≡ at_rest (some id)
        → Step u (move u i u.relay u.unreported (leaving id))
    revoke :
        (i : ℕ) (id : Text)
        → u.place i ≡ at_rest none
        → Step u (move u i (disallow u.relay id) u.unreported (leaving id))
    remove_proxy :
        (i : ℕ) (id : Text)
        → u.place i ≡ at_rest none
        → is_some (Keyed.lookup Text-discrete id u.relay.proxies) ≡ true
        → Step u (move u i (forget_proxy u.relay id) u.unreported (leaving id))
    drop :
        (i : ℕ) (id : Text)
        → u.place i ≡ leaving id
        → Step u (
            move u i
              ((remove u.relay id).0)
              (if (remove u.relay id).1 then stream_ended id ∷ u.unreported else u.unreported)
              (at_rest none))
    report_end :
        (id : Text) (before after : List RelayEvent)
        → u.unreported ≡ before ++ stream_ended id ∷ after
        → Step u (record u { relay = emit u.relay (stream_ended id); unreported = before ++ after })
    watched :
        (id : Text) (n : ℕ) → Step u (record u { relay = emit u.relay (watchers_changed id n) })
    authorize : (id : Text) → Step u (record u { relay = authorize_stream u.relay id })
    set_validator :
        (v : Option (ShareToken → Bool))
        → Step u (record u { relay = set_token_validator u.relay v })
    abort : Step u (record u { relay = abort_proxies u.relay })

  pub data Reach (u : System) : System → Type 0 where
    here : Reach u u
    later : {v w : System} → Reach u v → Step v w → Reach u w

abbrev pub start : Bool → ℕ → Option ℕ → Option ℕ → System
start controlled port srt_port quic_port = record {
  relay = with_ports controlled port srt_port quic_port;
  place = λ i. at_rest none;
  unreported = [];
}
