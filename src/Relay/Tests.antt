-- ===== src/Relay/Tests.antt =====
-- A relay, its pushers and its proxies on small inputs, and their theorems at concrete inputs.
use mathlib.Core.List.{reverse}
use stross.Base.{ℕ, ◌≡◌, refl, true, false, List, [], ◌∷◌, ◌++◌, map, none, some, arith}
use stross.Base.Keyed
use stross.Base.Result.{ok}
use stross.Proto.Message.{Text, Text-discrete}
use stross.Relay.{
  stream_started, stream_ended, with_ports, get, authorize_stream, revoke_stream, is_allowed,
  start_proxy, remove_proxy, placeholder, unwrap_or,
}
use stross.Relay.Table
use stross.Relay.Laws.{is_live}
use stross.Relay.Push.{
  packet, control, media, hello, welcome, bye, disconnected, send, close, breaks, admits,
  open_stream, hello_info, handle_push, handle_push_loop,
}
use stross.Relay.Push.Life.{frames_then, push_life}
use stross.Relay.Push.Leak.{second_hello-leaks, revoked_pusher-ends_other}
use stross.Relay.Proxy.{is_proxied, remove_proxy-start_proxy}
use stross.Relay.Table.Shards.{Op, run, run_map, look, put, take_out, run-empty_table}
use stross.Relay.Fixtures.{no_tokens, open_relay, guarded, says, shot, open_relay-IsRelay}

hash_a : Table.shard_for (97 ∷ []) ≡ 12
unfolding Table.shard_for
hash_a = refl

refuses_b : is_allowed no_tokens guarded (98 ∷ []) none true ≡ false
unfolding is_allowed authorize_stream with_ports Text-discrete
refuses_b = refl

push_life_example :
    let t = handle_push no_tokens true 5 open_relay (
      packet (control (hello (says 97)))
      ∷ frames_then (shot 1 1 ∷ shot 0 2 ∷ []) disconnected []) in
    (t.calls ≡ send (control (welcome (97 ∷ []))) ∷ close ∷ [])
    × (t.flow ≡ breaks)
    × (t.relay.sent
        ≡ reverse (map (λ f. (open_relay.next_tx, f)) (shot 1 1 ∷ shot 0 2 ∷ []))
          ++ open_relay.sent)
    × (t.relay.events
        ≡ stream_ended (97 ∷ [])
          ∷ stream_started (97 ∷ []) (hello_info (says 97) 5)
          ∷ open_relay.events)
    × ((j : Text) → get t.relay j ≡ get open_relay j)
unfolding admits with_ports get Table.get Table.shard_for Text-discrete
push_life_example =
    push_life no_tokens true 5 open_relay (says 97) (shot 1 1 ∷ shot 0 2 ∷ []) disconnected []
      open_relay-IsRelay refl refl tt

second_hello-leaks_example :
    let t =
      (handle_push no_tokens true 5 open_relay (
        packet (control (hello (says 97)))
        ∷ packet (control (hello (says 98)))
        ∷ packet (control bye)
        ∷ [])).relay in
    (is_live t (97 ∷ []) ≡ true) × (is_live t (98 ∷ []) ≡ false)
unfolding admits with_ports get Table.get Table.shard_for Text-discrete
second_hello-leaks_example =
    second_hello-leaks no_tokens true 5 open_relay (says 97) (says 98) open_relay-IsRelay
      (λ e. ground (arith, e)) refl refl refl refl

revoked_pusher-ends_other_example :
    let s' = open_stream (revoke_stream open_relay (97 ∷ [])) (says 97) 5 in
    let t =
      (handle_push_loop no_tokens true 5 s'
        (some (97 ∷ []))
        (packet (media (shot 1 1)) ∷ disconnected ∷ [])).relay in
    (t.sent ≡ (open_relay.next_tx, shot 1 1) ∷ s'.sent)
    × (t.events ≡ stream_ended (97 ∷ []) ∷ s'.events)
    × (is_live s' (97 ∷ []) ≡ true)
    × (is_live t (97 ∷ []) ≡ false)
revoked_pusher-ends_other_example =
    revoked_pusher-ends_other no_tokens true 5 open_relay (says 97) (shot 1 1) disconnected []
      open_relay-IsRelay tt

start_a : unwrap_or none (placeholder (97 ∷ []) 5) ≡ placeholder (97 ∷ []) 5
unfolding unwrap_or
start_a = refl

remove_proxy-start_proxy_example :
    let (answer, started) = start_proxy open_relay (117 ∷ []) (97 ∷ []) none 5 in
    let t = remove_proxy started (97 ∷ []) in
    (answer ≡ ok (97 ∷ []))
    × (is_live started (97 ∷ []) ≡ true)
    × (is_proxied started (97 ∷ []) ≡ true)
    × ((j : Text) → get t j ≡ get open_relay j)
    × ((j : Text)
        → Keyed.lookup Text-discrete j t.proxies ≡ Keyed.lookup Text-discrete j open_relay.proxies)
    × (t.events
        ≡ stream_ended (97 ∷ [])
          ∷ stream_started (97 ∷ []) (unwrap_or none (placeholder (97 ∷ []) 5))
          ∷ open_relay.events)
unfolding with_ports get Table.get Table.shard_for Text-discrete unwrap_or placeholder
remove_proxy-start_proxy_example =
    remove_proxy-start_proxy open_relay (117 ∷ []) (97 ∷ []) none 5 open_relay-IsRelay refl refl
      refl

abbrev table_ops : List (Op ℕ)
table_ops = put (97 ∷ []) 1 ∷ put (98 ∷ []) 2 ∷ take_out (97 ∷ []) ∷ look (98 ∷ []) ∷ []

run-empty_table_example : run Table.empty_table table_ops ≡ run_map (λ j. none) table_ops
run-empty_table_example = run-empty_table table_ops
