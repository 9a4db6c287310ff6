-- ===== src/Relay/Run/Tests.antt =====
-- The theorems on runs at a run of one session.
use native.Mathlib.Decide.{ℕ_discrete}
use stross.Base.{◌+◌, ◌≤◌, refl, true, [], ◌∷◌, none, some}
use stross.Proto.Message.{Text-discrete}
use stross.Relay.{
  RelayEvent, stream_started, with_ports, get, authorize_stream, is_allowed, add_stream, emit,
}
use stross.Relay.Table
use stross.Relay.Laws.{is_live}
use stross.Relay.Push.{admits, hello_info}
use stross.Relay.Run.{
  System, tested, entered, at_rest, Reach, start, test, enter, here, later, authorize, move,
}
use stross.Relay.Run.Counts.{starts_of, ends_of, as_number}
use stross.Relay.Run.Events.{ends_of-le-starts_of}
use stross.Relay.Fixtures.{no_tokens, says}

abbrev fresh : System
fresh = start true 8777 none none

abbrev with_leave : System
with_leave = record fresh { relay = authorize_stream fresh.relay (97 ∷ []) }

abbrev one_tested : System
one_tested = move with_leave 0 with_leave.relay [] (tested (says 97))

abbrev started_a : RelayEvent
started_a = stream_started (97 ∷ []) (hello_info (says 97) 5)

abbrev one_entered : System
one_entered =
    move one_tested 0 (add_stream one_tested.relay (hello_info (says 97) 5)) (started_a ∷ [])
      (entered started_a (some (97 ∷ [])))

abbrev one_reported : System
one_reported = move one_entered 0 (emit one_entered.relay started_a) [] (at_rest (some (97 ∷ [])))

entered_run : Reach no_tokens fresh one_entered
unfolding admits is_allowed with_ports authorize_stream get Table.get Table.shard_for Text-discrete
    ℕ_discrete
entered_run =
    later (later (later here (authorize (97 ∷ []))) (test 0 none (says 97) true refl refl refl))
      (enter 0 (says 97) 5 refl)

ends_of-le-starts_of_example :
    ends_of (97 ∷ []) one_entered.relay.events
      + ends_of (97 ∷ []) one_entered.unreported
      + as_number (is_live one_entered.relay (97 ∷ []))
    ≤ starts_of (97 ∷ []) one_entered.relay.events + starts_of (97 ∷ []) one_entered.unreported
ends_of-le-starts_of_example =
    ends_of-le-starts_of no_tokens true 8777 none none one_entered entered_run (97 ∷ [])
