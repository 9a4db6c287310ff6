-- ===== src/Channel/Manager.antt =====
-- crates/stross-kernel/src/channel/manager.rs: one channel for each peer.
-- A session is shared, so the manager holds a handle for each peer and `store` what the handles stand for.
pub mod Sessions
mod Tests
use stross.Base.{
  ℕ, suc, List, [], ◌∷◌, ◌++◌, Option, none, some, Bool, true, false, not, if◌then◌else◌,
}
use stross.Base.Result.{Result, ok, err}
use stross.Base.Assoc.{lookup, remove, insert}
use stross.Proto.Message.{Text}
use stross.Channel.Session.{
  ChannelSession, Effect, emits, connected, Io, SendError, new_session, close, send_text, send_file,
  cancel_transfer,
}

pub record ChannelManager : Type 0 where
  pub sessions : List (ℕ × ℕ)
  pub store : List (ℕ × ChannelSession)
  pub next_handle : ℕ
  pub auto_accept : Bool

unfoldable pub new_manager : Bool → ChannelManager
new_manager auto_accept = record {
  sessions = [];
  store = [];
  next_handle = 0;
  auto_accept = auto_accept;
}

unfoldable pub close_handle :
    List (ℕ × ChannelSession) → ℕ → List Effect × List (ℕ × ChannelSession)
close_handle store handle = elim (lookup handle store) [
  | none ↦ ([], store)
  | some s ↦ ((close s).0, insert handle ((close s).1) store)
]

-- The new session reports that it is connected; the one that was there for the peer is closed and
-- replaced.
unfoldable pub register_session : ChannelManager → ℕ → ℕ × List Effect × ChannelManager
register_session m peer =
    let handle = m.next_handle in
    let store = insert handle (new_session m.auto_accept) m.store in
    let closing : List Effect × List (ℕ × ChannelSession) = elim (lookup peer m.sessions) [
      | none ↦ ([], store)
      | some old ↦ close_handle store old
    ] in
    (
      handle,
      emits connected ∷ closing.0,
      record m {
        sessions = insert peer handle m.sessions;
        store = closing.1;
        next_handle = suc handle;
      },
    )

unfoldable pub is_alive : List (ℕ × ChannelSession) → ℕ → Bool
is_alive store handle = elim (lookup handle store) [ none ↦ false | some s ↦ not s.closed ]

unfoldable pub get_session : ChannelManager → ℕ → Option ℕ × ChannelManager
get_session m peer = elim (lookup peer m.sessions) [
  | none ↦ (none, m)
  | some handle ↦
      if is_alive m.store handle
      then (some handle, m)
      else (none, record m { sessions = remove peer m.sessions })
]

unfoldable pub retain_alive : List (ℕ × ChannelSession) → List (ℕ × ℕ) → List (ℕ × ℕ)
retain_alive store [] = []
retain_alive store ((peer, handle) ∷ sessions) =
    let rest = retain_alive store sessions in
    if is_alive store handle then (peer, handle) ∷ rest else rest

-- The peers of `list_statuses`, all of them connected.
unfoldable pub list_statuses : ChannelManager → List (ℕ × ℕ) × ChannelManager
list_statuses m =
    let alive = retain_alive m.store m.sessions in (alive, record m { sessions = alive })

pub data ManagerError : Type 0 where
  not_connected : ManagerError
  in_session : SendError → ManagerError

-- An operation on the live session of a peer.
unfoldable pub with_session :
    ChannelManager
    → ℕ
    → (ChannelSession → Result SendError ℕ × List Effect × ChannelSession)
    → Result ManagerError ℕ × List Effect × ChannelManager
with_session m peer f =
    let (found, m') = get_session m peer in
    elim found [
      | none ↦ (err not_connected, [], m')
      | some handle ↦ elim (lookup handle m'.store) [
        | none ↦ (err not_connected, [], m')
        | some s ↦
            let (r, es, s') = f s in
            (
              elim r [ ok n ↦ ok n | err e ↦ err (in_session e) ],
              es,
              record m' { store = insert handle s' m'.store },
            )
      ]
    ]

unfoldable pub send_text_to :
    ChannelManager → ℕ → Text → Io → Result ManagerError ℕ × List Effect × ChannelManager
send_text_to m peer body io = with_session m peer (λ s. send_text s body io)

unfoldable pub send_file_to :
    ChannelManager → ℕ → Text → ℕ → Io → Result ManagerError ℕ × List Effect × ChannelManager
send_file_to m peer name size io = with_session m peer (λ s. send_file s name size io)

unfoldable pub cancel_transfer_of :
    ChannelManager → ℕ → ℕ → Result ManagerError ℕ × List Effect × ChannelManager
cancel_transfer_of m peer id =
    with_session m peer (λ s. (ok id, (cancel_transfer s id).0, (cancel_transfer s id).1))

unfoldable pub close_session : ChannelManager → ℕ → List Effect × ChannelManager
close_session m peer = elim (lookup peer m.sessions) [
  | none ↦ ([], m)
  | some handle ↦
      let (es, store) = close_handle m.store handle in
      (es, record m { sessions = remove peer m.sessions; store = store })
]
