-- ===== src/Relay/Fixtures.antt =====
-- A relay, a session and frames for the tests.
use stross.Base.{ℕ, ◌≡◌, refl, true, false, [], ◌∷◌, Option, none, some}
use stross.Proto.Message.{Text, Text-discrete}
use stross.Proto.Frame.{Frame}
use stross.Relay.{RelayState, StreamEntry, ShareToken, with_ports, get, authorize_stream}
use stross.Relay.Table
use stross.Relay.Laws.{IsRelay}
use stross.Relay.Push.{Hello, open_stream, hello_info}

-- No token reads as one.
abbrev pub no_tokens : Text → Option ShareToken
no_tokens t = none

abbrev pub open_relay : RelayState
open_relay = with_ports false 8777 none none

abbrev pub guarded : RelayState
guarded = authorize_stream (with_ports true 8777 none none) (97 ∷ [])

abbrev pub says : ℕ → Hello
says c = record { stream_id = c ∷ []; title = []; video = none; audio = none; share_token = none }

abbrev pub shot : ℕ → ℕ → Frame
shot flags seq = record {
  header = record {
    track = 0;
    codec = 0;
    flags = flags;
    pts_ms = 0;
    seq = seq;
    frag_idx = 0;
    frag_cnt = 0;
    len = 0;
  };
  payload = [];
}

pub open_relay-IsRelay : IsRelay open_relay
unfolding with_ports
open_relay-IsRelay = refl

abbrev pub with_a : RelayState
with_a = open_stream open_relay (says 97) 5

abbrev pub entry_a : StreamEntry
entry_a = record { info = hello_info (says 97) 5; tx = 0; last_keyframe = none }

pub finds_a : get with_a (97 ∷ []) ≡ some entry_a
unfolding open_stream hello_info with_ports get Table.get Table.insert Table.shard_for Text-discrete
finds_a = refl

pub with_a-IsRelay : IsRelay with_a
unfolding open_stream with_ports Table.insert Table.shard_for
with_a-IsRelay = refl

abbrev pub counts : ℕ → ℕ
counts tx = 1
