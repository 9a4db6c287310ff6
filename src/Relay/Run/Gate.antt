-- ===== src/Relay/Run/Gate.antt =====
-- The gate of a controlled relay over every run.
use stross.Base.{ℕ, ◌≡◌, Bool, true, Option, ◌⊎◌}
use stross.Base.Result.{ok}
use stross.Proto.Message.{Text}
use stross.Relay.{StreamInfo, ShareToken, start_proxy}
use stross.Relay.Laws.{is_live}
use stross.Relay.Push.{Hello, admits}
use stross.Relay.Run.{System, Place, tested, proxying, Reach}

-- The stream that a task is about to put in.
abbrev Wants : Place → Text → Type 0
Wants (tested h) id = h.stream_id ≡ id
Wants (proxying upstream j info) id = j ≡ id
Wants _ id = ⊥

module _ (from_token_string : Text → Option ShareToken) where
  -- What lets a stream in: a Hello that passes the gate, or a proxy that is accepted.
  abbrev Passes : System → Text → Type 0
  Passes v id =
      ((h : Hello) × (local : Bool) × (h.stream_id ≡ id)
        × (admits from_token_string v.relay h local ≡ true))
      ⊎ ((upstream : Text) × (info : Option StreamInfo) × (now : ℕ) × ((start_proxy v.relay upstream
              id info now).0
            ≡ ok id))

  -- It happened in some earlier state of the run.
  abbrev LetIn : System → System → Text → Type 0
  LetIn a u id =
      (v : System) × Reach from_token_string a v × Reach from_token_string v u × Passes v id

  record Gated (a u : System) : Type 0 where
    wanted : (i : ℕ) (id : Text) → Wants (u.place i) id → LetIn a u id
    live_in : (id : Text) → is_live u.relay id ≡ true → LetIn a u id
