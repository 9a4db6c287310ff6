-- ===== src/Channel/Manager/Sessions.antt =====
-- A peer has one live session.
use stross.Base.{
  ℕ, suc, ◌<◌, ◌≡◌, ◌≢◌, refl, sym, subst, ◌∙◌, List, [], ◌∷◌, some, Bool-cases, Option-cases, true,
  false, inl, inr, arith, All,
}
use stross.Base.Result.{err}
use stross.Base.Assoc.{
  lookup, insert, lookup-insert, lookup-insert_other, lookup-remove, lookup-All, remove-All,
}
use stross.Proto.Message.{Text}
use stross.Channel.Session.{ChannelSession, Io, new_session, close}
use stross.Channel.Manager.{
  ChannelManager, not_connected, register_session, get_session, is_alive, close_handle,
  close_session, with_session, send_text_to,
}

-- The handles of the peers have been given out.
abbrev pub IsManager : ChannelManager → Type 0
IsManager m = All (λ e. e.1 < m.next_handle) m.sessions

alive-open :
    (store : List (ℕ × ChannelSession)) (handle : ℕ)
    → is_alive store handle ≡ true
    → (s : ChannelSession) × (lookup handle store ≡ some s) × (s.closed ≡ false)
unfolding is_alive
alive-open store handle e = elim (Option-cases (lookup handle store)) [
  | inl gone ↦ absurd (ground (arith, e, gone))
  | inr (s, there) ↦ (s, there, ground (arith, e, there))
]

-- A session that the manager gives out for a peer is open.
pub get_session-open :
    (m : ChannelManager) (peer handle : ℕ)
    → (get_session m peer).0 ≡ some handle
    → (s : ChannelSession) × (lookup handle m.store ≡ some s) × (s.closed ≡ false)
unfolding get_session
get_session-open m peer handle e = elim (Option-cases (lookup peer m.sessions)) [
  | inl unknown ↦ absurd (ground (arith, e, unknown))
  | inr (h, known) ↦ elim (Bool-cases (is_alive m.store h)) [
    | inl alive ↦ alive-open m.store handle (ground (arith, e, known, alive))
    | inr dead ↦ absurd (ground (arith, e, known, dead))
  ]
]

close_handle-other :
    (store : List (ℕ × ChannelSession)) (h k : ℕ)
    → k ≢ h
    → lookup k (close_handle store h).1 ≡ lookup k store
unfolding close_handle
close_handle-other store h k n = elim (Option-cases (lookup h store)) [
  | inl e ↦ ground (arith, e)
  | inr (s, e) ↦ ground (arith, e, lookup-insert_other k h ((close s).1) store n)
]

close_handle-closed :
    (store : List (ℕ × ChannelSession)) (h : ℕ) (s : ChannelSession)
    → lookup h store ≡ some s
    → lookup h (close_handle store h).1 ≡ some ((close s).1)
unfolding close_handle
close_handle-closed store h s e = ground (arith, e, lookup-insert h ((close s).1) store)

get_session-known :
    (m : ChannelManager) (peer handle : ℕ) (s : ChannelSession)
    → lookup peer m.sessions ≡ some handle
    → lookup handle m.store ≡ some s
    → s.closed ≡ false
    → (get_session m peer).0 ≡ some handle
unfolding get_session is_alive
get_session-known m peer handle s known there up = ground (arith, known, there, up)

All-suc : (n : ℕ) (es : List (ℕ × ℕ)) → All (λ e. e.1 < n) es → All (λ e. e.1 < suc n) es
All-suc n [] h = tt
All-suc n (e ∷ es) h = (omega (arith, h.0), All-suc n es h.1)

module _ (m : ChannelManager) (peer old : ℕ) (s : ChannelSession) where
  fresh_store : List (ℕ × ChannelSession)
  fresh_store = insert m.next_handle (new_session m.auto_accept) m.store

  register-store :
      lookup peer m.sessions ≡ some old
      → (register_session m peer).2.store ≡ (close_handle fresh_store old).1
  unfolding register_session fresh_store
  register-store e = ground (arith, e)

  sessions-registered : lookup peer (register_session m peer).2.sessions ≡ some (m.next_handle)
  unfolding register_session
  sessions-registered = lookup-insert peer m.next_handle m.sessions

  made-open : (new_session m.auto_accept).closed ≡ false
  unfolding new_session
  made-open = refl

  IsManager-registered : IsManager m → IsManager ((register_session m peer).2)
  unfolding register_session
  IsManager-registered v = (
    omega arith,
    All-suc m.next_handle _ (remove-All (λ e. e.1 < m.next_handle) peer m.sessions v),
  )

  -- In a manager whose handles have all been given out, registering a peer that has a session
  -- closes that session, the manager then gives out the new one, and its handles have all been
  -- given out.
  pub register_session-replaces :
      IsManager m
      → lookup peer m.sessions ≡ some old
      → lookup old m.store ≡ some s
      → ((get_session ((register_session m peer).2) peer).0 ≡ some (m.next_handle))
        × (lookup old (register_session m peer).2.store ≡ some ((close s).1))
        × IsManager ((register_session m peer).2)
  unfolding fresh_store
  register_session-replaces v known there =
      let next = m.next_handle in
      let before : old < next = lookup-All (λ e. e.1 < next) peer old m.sessions known v in
      let other : next ≢ old = λ e. absurd (omega (arith, before, e)) in
      let store = sym (register-store known) in
      let made = new_session m.auto_accept in
      let here = close_handle-other fresh_store old next other ∙ lookup-insert next made m.store in
      let kept =
        lookup-insert_other old next made m.store (λ e. absurd (omega (arith, before, e)))
        ∙ there in
      (
        get_session-known ((register_session m peer).2) peer next made (sessions-registered)
            (subst (λ k. lookup next k ≡ some made) store here) made-open,
        subst (λ k. lookup old k ≡ some ((close s).1)) store
            (close_handle-closed fresh_store old s kept),
        IsManager-registered v,
      )

-- A message to a peer whose session was closed is refused.
pub send_text_to-close_session :
    (m : ChannelManager) (peer : ℕ) (body : Text) (io : Io)
    → (send_text_to ((close_session m peer).1) peer body io).0 ≡ err not_connected
unfolding send_text_to with_session get_session close_session
send_text_to-close_session m peer body io = elim (Option-cases (lookup peer m.sessions)) [
  | inl e ↦ ground (arith, e)
  | inr (h, e) ↦ ground (arith, e, lookup-remove peer m.sessions)
]
