-- ===== src/Channel/Manager/Tests.antt =====
-- The channel manager on two registrations of one peer, and its theorems at concrete inputs.
use stross.Base.{◌≡◌, refl, true, false, [], ◌∷◌, some, arith}
use stross.Base.Assoc.{lookup}
use stross.Channel.Session.{ChannelSession, new_session, close}
use stross.Channel.Manager.{
  ChannelManager, register_session, get_session, is_alive, new_manager, close_handle,
}
use stross.Channel.Manager.Sessions.{IsManager, register_session-replaces}

abbrev open_session : ChannelSession
open_session = record {
  auto_accept = true;
  next_msg_id = 1;
  next_transfer_id = 1;
  inbounds = [];
  outbounds = [];
  closed = false;
}

abbrev manager : ChannelManager
manager = record {
  sessions = (9, 0) ∷ [];
  store = (0, open_session) ∷ [];
  next_handle = 1;
  auto_accept = true;
}

finds : (get_session manager 9).0 ≡ some 0
unfolding get_session is_alive
finds = refl

-- The manager that registers peer 9 for the first time is `manager`.
registers : (register_session (new_manager true) 9).2 ≡ manager
unfolding register_session new_manager new_session close_handle
registers = refl

register_session-replaces_example :
    ((get_session ((register_session manager 9).2) 9).0 ≡ some 1)
    × (lookup 0 (register_session manager 9).2.store ≡ some ((close open_session).1))
    × IsManager ((register_session manager 9).2)
register_session-replaces_example =
    register_session-replaces manager 9 0 open_session (omega arith) refl refl
