-- ===== src/Channel/Session/Control.antt =====
-- Cancelling, deciding and closing take effect once.
use stross.Base.{
  ℕ, ◌≡◌, refl, sym, subst, [], none, arith, Option-cases, ◌⊎◌, Bool, Bool-cases, false, inl, inr,
}
use stross.Base.Result.{err}
use stross.Base.Assoc.{lookup, lookup-remove, lookup-insert}
use stross.Proto.Message.{Text}
use stross.Channel.Session.{
  ChannelSession, Io, cancel_transfer, close, handle_decision, drop_inbound, drop_outbound, without,
  send_text, channel_closed, send_file,
}

cancel_unknown :
    (s : ChannelSession) (id : ℕ)
    → lookup id s.outbounds ≡ none
    → lookup id s.inbounds ≡ none
    → cancel_transfer s id ≡ ([], s)
unfolding cancel_transfer drop_outbound drop_inbound
cancel_unknown s id o i = ground arith

module _ (s : ChannelSession) (id : ℕ) where
  cancel_known :
      ((cancel_transfer s id).1 ≡ without id s)
      → (lookup id (cancel_transfer s id).1.outbounds ≡ none)
        × (lookup id (cancel_transfer s id).1.inbounds ≡ none)
  unfolding without
  cancel_known e = (
    subst (λ c. lookup id c.outbounds ≡ none) (sym e) (lookup-remove id s.outbounds),
    subst (λ c. lookup id c.inbounds ≡ none) (sym e) (lookup-remove id s.inbounds),
  )

  cancel_cases :
      ((cancel_transfer s id).1 ≡ without id s)
      ⊎ ((lookup id s.outbounds ≡ none) × (lookup id s.inbounds ≡ none))
  unfolding cancel_transfer drop_outbound drop_inbound
  cancel_cases = ground arith

  -- Once a transfer is cancelled, neither direction knows its id, and cancelling it again does nothing.
  pub cancel_transfer_once :
      (lookup id (cancel_transfer s id).1.outbounds ≡ none)
      × (lookup id (cancel_transfer s id).1.inbounds ≡ none)
      × (cancel_transfer ((cancel_transfer s id).1) id ≡ ([], (cancel_transfer s id).1))
  cancel_transfer_once = elim cancel_cases [
    | inl e ↦
        let (o, i) = cancel_known e in (o, i, cancel_unknown ((cancel_transfer s id).1) id o i)
    | inr (o, i) ↦ rw (cancel_unknown s id o i) (o, i, cancel_unknown s id o i)
  ]

-- After any decision of the peer on a transfer, a second decision sends nothing more to the
-- background task of the transfer.
pub handle_decision_once :
    (s : ChannelSession) (id : ℕ) (accept again : Bool)
    → (handle_decision ((handle_decision s id accept).1) id again).0 ≡ []
unfolding handle_decision
handle_decision_once s id accept again = elim (Option-cases (lookup id s.outbounds)) [
  | inl e ↦ ground arith
  | inr (t, e) ↦ elim (Bool-cases accept) [
    | inl a ↦ ground (arith, lookup-insert id (record t { decision_tx = false }) s.outbounds)
    | inr a ↦ ground (arith, lookup-remove id s.outbounds)
  ]
]

-- After an open session is closed no transfer is left, nothing can be sent, and closing again does
-- nothing.
pub close_once :
    (s : ChannelSession) (body name : Text) (size : ℕ) (io : Io)
    → s.closed ≡ false
    → ((close s).1.inbounds ≡ [])
      × ((close s).1.outbounds ≡ [])
      × (send_text ((close s).1) body io ≡ (err channel_closed, [], (close s).1))
      × (send_file ((close s).1) name size io ≡ (err channel_closed, [], (close s).1))
      × (close ((close s).1) ≡ ([], (close s).1))
unfolding close send_text send_file
close_once s body name size io e = rw e (refl, refl, refl, refl, refl)
