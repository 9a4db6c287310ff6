-- ===== src/Relay/Run/Counts.antt =====
-- Counting the reports of starts and ends.
use mathlib.Core.Logic.{ite}
use stross.Base.{
  ℕ, ◌+◌, ◌≤◌, ◌≡◌, refl, ap, Bool, true, false, List, [], ◌∷◌, ◌++◌, Option, arith, if◌then◌else◌,
}
use stross.Base.Keyed.{is_some}
use stross.Proto.Message.{Text, Text-discrete}
use stross.Proto.Frame.{Frame}
use stross.Relay.{
  RelayState, RelayEvent, StreamInfo, stream_started, stream_ended, watchers_changed, get,
  with_ports, forward, add_stream, emit, remove,
}
use stross.Relay.Table
use stross.Relay.Table.Shards
use stross.Relay.Laws.{
  IsRelay, is_live, live-forward, forward-IsRelay, events-forward, add_stream-IsRelay,
  get-add_stream,
}

abbrev pub starts_of : Text → List RelayEvent → ℕ
starts_of id [] = 0
starts_of id (stream_started j info ∷ evs) = ite (Text-discrete j id) 1 0 + starts_of id evs
starts_of id (_ ∷ evs) = starts_of id evs

abbrev pub ends_of : Text → List RelayEvent → ℕ
ends_of id [] = 0
ends_of id (stream_ended j ∷ evs) = ite (Text-discrete j id) 1 0 + ends_of id evs
ends_of id (_ ∷ evs) = ends_of id evs

abbrev pub as_number : Bool → ℕ
as_number true = 1
as_number false = 0

starts_of-append :
    (id : Text) (xs ys : List RelayEvent)
    → starts_of id (xs ++ ys) ≡ starts_of id xs + starts_of id ys
starts_of-append id [] ys = omega arith
starts_of-append id (stream_started j info ∷ xs) ys = omega (arith, starts_of-append id xs ys)
starts_of-append id (stream_ended j ∷ xs) ys = starts_of-append id xs ys
starts_of-append id (watchers_changed j n ∷ xs) ys = starts_of-append id xs ys

ends_of-append :
    (id : Text) (xs ys : List RelayEvent) → ends_of id (xs ++ ys) ≡ ends_of id xs + ends_of id ys
ends_of-append id [] ys = omega arith
ends_of-append id (stream_ended j ∷ xs) ys = omega (arith, ends_of-append id xs ys)
ends_of-append id (stream_started j info ∷ xs) ys = ends_of-append id xs ys
ends_of-append id (watchers_changed j n ∷ xs) ys = ends_of-append id xs ys

pub live-with_ports :
    (c : Bool) (p : ℕ) (q w : Option ℕ) (id : Text) → is_live (with_ports c p q w) id ≡ false
unfolding with_ports get Table.get
live-with_ports c p q w id = ap is_some (Shards.get-empty_table id)

pub live-add_stream :
    (r : RelayState) (info : StreamInfo) (j : Text)
    → IsRelay r
    → is_live (add_stream r info) j ≡ ite (Text-discrete j info.stream_id) true (is_live r j)
live-add_stream r info j v = ground (arith, get-add_stream r info j v)

pub remove-IsRelay : (r : RelayState) (id : Text) → IsRelay r → IsRelay ((remove r id).0)
unfolding remove Table.remove
remove-IsRelay r id v = ground (arith, Shards.length-remove id r.streams)

pub live-remove :
    (r : RelayState) (id j : Text)
    → IsRelay r
    → is_live ((remove r id).0) j ≡ ite (Text-discrete j id) false (is_live r j)
unfolding remove get
live-remove r id j v = ground (arith, Shards.get-remove id j r.streams)

removed-live : (r : RelayState) (id : Text) → (remove r id).1 ≡ is_live r id
unfolding remove get Table.remove
removed-live r id = refl

events-remove : (r : RelayState) (id : Text) → (remove r id).0.events ≡ r.events
unfolding remove
events-remove r id = refl

events-add_stream : (r : RelayState) (info : StreamInfo) → (add_stream r info).events ≡ r.events
unfolding add_stream
events-add_stream r info = refl

-- An event that goes from the events to be sent to those sent.
sent-starts :
    (id : Text) (ev : RelayEvent) (evs before after : List RelayEvent)
    → starts_of id (ev ∷ evs) + starts_of id (before ++ after)
      ≡ starts_of id evs + starts_of id (before ++ ev ∷ after)
sent-starts id ev evs before after = omega (
  arith,
  starts_of-append id before after,
  starts_of-append id before (ev ∷ after),
  starts_of-append id (ev ∷ []) evs,
  starts_of-append id (ev ∷ []) after,
)

sent-ends :
    (id : Text) (ev : RelayEvent) (evs before after : List RelayEvent)
    → ends_of id (ev ∷ evs) + ends_of id (before ++ after)
      ≡ ends_of id evs + ends_of id (before ++ ev ∷ after)
sent-ends id ev evs before after = omega (
  arith,
  ends_of-append id before after,
  ends_of-append id before (ev ∷ after),
  ends_of-append id (ev ∷ []) evs,
  ends_of-append id (ev ∷ []) after,
)

-- The table has its shards, and of each stream there are as many starts as ends, reported or still to be
-- reported, and one more if it is live.
pub record Kept (r : RelayState) (unreported : List RelayEvent) : Type 0 where
  pub sharded : IsRelay r
  pub covered :
      (id : Text)
      → ends_of id r.events + ends_of id unreported + as_number (is_live r id)
        ≤ starts_of id r.events + starts_of id unreported

module _ (r : RelayState) (unreported : List RelayEvent) (k : Kept r unreported) where
  pub add_stream-Kept :
      (info : StreamInfo)
      → Kept (add_stream r info) (stream_started info.stream_id info ∷ unreported)
  add_stream-Kept info = record {
    sharded = add_stream-IsRelay r info k.sharded;
    covered = λ id.
        ground (arith, k.covered id, events-add_stream r info, live-add_stream r info id k.sharded);
  }

  pub remove-Kept :
      (id : Text)
      → Kept
          ((remove r id).0)
          (if (remove r id).1 then stream_ended id ∷ unreported else unreported)
  remove-Kept id = record {
    sharded = remove-IsRelay r id k.sharded;
    covered = λ j.
        ground
          (arith, k.covered j, removed-live r id, events-remove r id, live-remove r id j k.sharded);
  }

  pub forward-Kept : (id : Text) (f : Frame) → Kept (forward r id f) unreported
  forward-Kept id f = record {
    sharded = forward-IsRelay r id f k.sharded;
    covered =
        λ j. ground (arith, k.covered j, live-forward r id j f k.sharded, events-forward r id f);
  }

  pub emit-Kept :
      (ev : RelayEvent) (before after : List RelayEvent)
      → unreported ≡ before ++ ev ∷ after
      → Kept (emit r ev) (before ++ after)
  unfolding emit get
  emit-Kept ev before after e = record {
    sharded = k.sharded;
    covered = λ id. omega (
      arith,
      k.covered id,
      ap (starts_of id) e,
      ap (ends_of id) e,
      sent-starts id ev r.events before after,
      sent-ends id ev r.events before after,
    );
  }
