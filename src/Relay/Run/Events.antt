-- ===== src/Relay/Run/Events.antt =====
-- The reports of starts and ends over every run.
use stross.Base.{ℕ, ◌+◌, ◌≤◌, refl, Bool, Option, arith}
use stross.Proto.Message.{Text}
use stross.Relay.{
  ShareToken, stream_ended, get, with_ports, authorize_stream, set_token_validator, emit,
  abort_proxies,
}
use stross.Relay.Laws.{is_live}
use stross.Relay.Push.{hello_info}
use stross.Relay.Run.{
  System, Step, Reach, test, enter, test_proxy, enter_proxy, report, push, pull, leave, revoke,
  remove_proxy, drop, report_end, watched, authorize, set_validator, abort, here, later, start,
  note_proxy, forget_proxy, disallow,
}
use stross.Relay.Run.Counts.{
  starts_of, ends_of, as_number, live-with_ports, Kept, add_stream-Kept, remove-Kept, forward-Kept,
  emit-Kept,
}

abbrev pub Balanced : System → Type 0
Balanced u = Kept u.relay u.unreported

pub start-Balanced : (c : Bool) (p : ℕ) (q w : Option ℕ) → Balanced (start c p q w)
unfolding with_ports
start-Balanced c p q w = record {
  sharded = refl;
  covered = λ id. ground (arith, live-with_ports c p q w id);
}

module _ (from_token_string : Text → Option ShareToken) where
  Step-Balanced : {u v : System} → Step from_token_string u v → Balanced u → Balanced v
  unfolding authorize_stream set_token_validator abort_proxies disallow forget_proxy note_proxy emit
      get hello_info
  Step-Balanced (test i sid h local p a f) b = b
  Step-Balanced {u} (enter i h now p) b = add_stream-Kept u.relay u.unreported b (hello_info h now)
  Step-Balanced (test_proxy i upstream id info now p named ok) b = b
  Step-Balanced {u} (enter_proxy i upstream id info named p) b =
      let k = add_stream-Kept u.relay u.unreported b info in
      record { sharded = k.sharded; covered = λ j. ground (arith, k.covered j, named) }
  Step-Balanced {u} (report i ev sid before after p e) b =
      emit-Kept u.relay u.unreported b ev before after e
  Step-Balanced {u} (push i id f p) b = forward-Kept u.relay u.unreported b id f
  Step-Balanced {u} (pull id f) b = forward-Kept u.relay u.unreported b id f
  Step-Balanced (leave i id p) b = b
  Step-Balanced (revoke i id p) b = record { sharded = b.sharded; covered = b.covered }
  Step-Balanced (remove_proxy i id p there) b = record { sharded = b.sharded; covered = b.covered }
  Step-Balanced {u} (drop i id p) b = remove-Kept u.relay u.unreported b id
  Step-Balanced {u} (report_end id before after e) b =
      emit-Kept u.relay u.unreported b (stream_ended id) before after e
  Step-Balanced (watched id n) b = record { sharded = b.sharded; covered = b.covered }
  Step-Balanced (authorize id) b = record { sharded = b.sharded; covered = b.covered }
  Step-Balanced (set_validator v) b = record { sharded = b.sharded; covered = b.covered }
  Step-Balanced abort b = record { sharded = b.sharded; covered = b.covered }

  pub Reach-Balanced : {u v : System} → Reach from_token_string u v → Balanced u → Balanced v
  Reach-Balanced here b = b
  Reach-Balanced (later r st) b = Step-Balanced st (Reach-Balanced r b)

  -- However the tasks of a fresh relay interleave, proxies whose information names their id included:
  -- counting the events sent and those that a task is still to send, no stream has ended
  -- more often than it has started, and one that is live has started at least once more. So reports of ends run
  -- ahead of reports of starts at most by the starts that are still to be reported.
  pub ends_of-le-starts_of :
      (c : Bool) (p : ℕ) (q w : Option ℕ) (u : System)
      → Reach from_token_string (start c p q w) u
      → (id : Text)
      → ends_of id u.relay.events + ends_of id u.unreported + as_number (is_live u.relay id)
        ≤ starts_of id u.relay.events + starts_of id u.unreported
  ends_of-le-starts_of c p q w u r = (Reach-Balanced r (start-Balanced c p q w)).covered
