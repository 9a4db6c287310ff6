-- ===== src/Relay/Watch/Tests.antt =====
-- Watchers on small inputs, and their theorems at concrete inputs.
use stross.Base.{◌≡◌, refl, true, false, [], ◌∷◌, ◌++◌}
use stross.Proto.Frame.{is_keyframe, is_config}
use stross.Relay.Push.{control, ready, send, close, close_stream, stream_opened}
use stross.Relay.Watch.{watch_loop, handle_watch, quic_watch_stream}
use stross.Relay.Watch.Aligned.{received, from_start, after_losses, watch_loop-received}
use stross.Relay.Watch.Life.{watch_life, life}
use stross.Relay.Fixtures.{open_relay, shot, with_a, entry_a, counts, finds_a}

skips_first :
    watch_loop false (received (shot 0 1 ∷ shot 1 2 ∷ shot 0 3 ∷ []) [])
    ≡ (shot 1 2 ∷ shot 0 3 ∷ [], true)
unfolding watch_loop is_keyframe is_config
skips_first = refl

watch_loop-received_example :
    watch_loop false (received (shot 0 1 ∷ shot 1 2 ∷ []) ((shot 0 4 ∷ shot 2 5 ∷ []) ∷ [])) ≡ (
      from_start (shot 0 1 ∷ shot 1 2 ∷ []) ++ after_losses ((shot 0 4 ∷ shot 2 5 ∷ []) ∷ []),
      true,
    )
watch_loop-received_example =
    watch_loop-received ((shot 0 4 ∷ shot 2 5 ∷ []) ∷ []) (shot 0 1 ∷ shot 1 2 ∷ []) false

watch_life_example :
    (handle_watch with_a open_relay counts counts (97 ∷ []) true (received (shot 1 1 ∷ []) [])
      ≡ life with_a open_relay counts counts
          (97 ∷ [])
          entry_a
          (shot 1 1 ∷ [])
          []
          (ready (97 ∷ []))
          (close ∷ []))
    × (quic_watch_stream with_a open_relay counts counts
          (97 ∷ [])
          true
          (received (shot 1 1 ∷ []) [])
        ≡ life with_a open_relay counts counts
            (97 ∷ [])
            entry_a
            (shot 1 1 ∷ [])
            []
            (stream_opened (97 ∷ []))
            (send (control (close_stream (97 ∷ []))) ∷ []))
watch_life_example =
    watch_life with_a open_relay counts counts (97 ∷ []) entry_a (shot 1 1 ∷ []) [] finds_a
