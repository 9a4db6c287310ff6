-- ===== src/Relay/Link/Pairing.antt =====
-- How the peer loop of a link pairs requests with media streams.
use mathlib.Core.List.{zip}
use native.Mathlib.Decide.{ℕ_discrete}
use stross.Base.{
  ◌⊎◌, ◌≢◌, ap₂, ℕ, ◌≡◌, refl, sym, ap, ◌∙◌, List, [], ◌∷◌, ◌++◌, append_assoc, append-nil, arith,
  inl, inr,
}
use stross.Base.Keyed
use stross.Proto.Message.{Text, Text-discrete}
use stross.Relay.{RelayState}
use stross.Relay.Link.{
  OpenStream, LinkEvent, opens, closes, other_message, media_stream, link_closed, LinkState,
  new_link, pair_off, close_semantic, link_round, quic_peer_loop,
}

-- The requests and the media streams of a link in the order in which they come.
abbrev pub opens_of : List LinkEvent → List OpenStream
opens_of [] = []
opens_of (opens o ∷ es) = o ∷ opens_of es
opens_of (link_closed ∷ es) = []
opens_of (_ ∷ es) = opens_of es

abbrev pub streams_of : List LinkEvent → List ℕ
streams_of [] = []
streams_of (media_stream q ∷ es) = q ∷ streams_of es
streams_of (link_closed ∷ es) = []
streams_of (_ ∷ es) = streams_of es

pair_off-zip :
    (l : LinkState) (os : List OpenStream) (qs : List ℕ) (os' : List OpenStream) (qs' : List ℕ)
    → (pair_off l os qs).spawned
        ++ zip ((pair_off l os qs).pending_opens ++ os') ((pair_off l os qs).pending_streams ++ qs')
      ≡ l.spawned ++ zip (os ++ os') (qs ++ qs')
unfolding pair_off zip
pair_off-zip l [] qs os' qs' = refl
pair_off-zip l (o ∷ os) [] os' qs' = refl
pair_off-zip l (o ∷ os) (q ∷ qs) os' qs' =
    let l' : LinkState = record l {
      by_quic = Keyed.insert ℕ_discrete q (o.stream_id, o.role) l.by_quic;
      by_semantic = Keyed.insert Text-discrete o.stream_id q l.by_semantic;
      spawned = l.spawned ++ ((o, q) ∷ []);
    } in
    pair_off-zip l' os qs os' qs'
    ∙ append_assoc l.spawned ((o, q) ∷ []) (zip (os ++ os') (qs ++ qs'))

-- No request waits while a media stream does.
abbrev pub IsPaired : LinkState → Type 0
IsPaired l = (l.pending_opens ≡ []) ⊎ (l.pending_streams ≡ [])

pair_off-IsPaired :
    (l : LinkState) (os : List OpenStream) (qs : List ℕ) → IsPaired (pair_off l os qs)
unfolding pair_off
pair_off-IsPaired l [] qs = inl refl
pair_off-IsPaired l (o ∷ os) [] = inr refl
pair_off-IsPaired l (o ∷ os) (q ∷ qs) =
    let l' : LinkState = record l {
      by_quic = Keyed.insert ℕ_discrete q (o.stream_id, o.role) l.by_quic;
      by_semantic = Keyed.insert Text-discrete o.stream_id q l.by_semantic;
      spawned = l.spawned ++ ((o, q) ∷ []);
    } in
    pair_off-IsPaired l' os qs

-- Closing a stream leaves the queues and the tasks.
close_semantic-queues :
    (l : LinkState) (id : Text)
    → ((close_semantic l id).pending_opens ≡ l.pending_opens)
      × ((close_semantic l id).pending_streams ≡ l.pending_streams)
      × ((close_semantic l id).spawned ≡ l.spawned)
unfolding close_semantic
close_semantic-queues l id = ground arith

zip-nil : (os : List OpenStream) → zip {B = ℕ} os [] ≡ []
unfolding zip
zip-nil [] = refl
zip-nil (o ∷ os) = refl

paired_end :
    (l : LinkState)
    → IsPaired l
    → l.spawned ++ zip (l.pending_opens ++ []) (l.pending_streams ++ []) ≡ l.spawned
unfolding zip
paired_end l (inl none_open) =
    ap (λ os. l.spawned ++ zip (os ++ []) (l.pending_streams ++ [])) none_open
    ∙ append-nil l.spawned
paired_end l (inr none_here) =
    ap (λ qs. l.spawned ++ zip (l.pending_opens ++ []) (qs ++ [])) none_here
    ∙ ap (λ z. l.spawned ++ z) (zip-nil (l.pending_opens ++ []))
    ∙ append-nil l.spawned

abbrev all_tasks : LinkState → List LinkEvent → List (OpenStream × ℕ)
all_tasks l es =
    l.spawned ++ zip (l.pending_opens ++ opens_of es) (l.pending_streams ++ streams_of es)

link_round-tasks :
    (l : LinkState) (e : LinkEvent) (es : List LinkEvent)
    → e ≢ link_closed
    → all_tasks (link_round l e) es ≡ all_tasks l (e ∷ es)
unfolding link_round
link_round-tasks l (opens o) es n =
    pair_off-zip l (l.pending_opens ++ (o ∷ [])) l.pending_streams (opens_of es) (streams_of es)
    ∙ ap (λ os. l.spawned ++ zip os (l.pending_streams ++ streams_of es))
        (append_assoc l.pending_opens (o ∷ []) (opens_of es))
link_round-tasks l (media_stream q) es n =
    pair_off-zip l l.pending_opens (l.pending_streams ++ (q ∷ [])) (opens_of es) (streams_of es)
    ∙ ap (λ qs. l.spawned ++ zip (l.pending_opens ++ opens_of es) qs)
        (append_assoc l.pending_streams (q ∷ []) (streams_of es))
link_round-tasks l (closes id) es n =
    let l' = close_semantic l id in
    let (same_opens, same_streams, same_tasks) = close_semantic-queues l id in
    pair_off-zip l' l'.pending_opens l'.pending_streams (opens_of es) (streams_of es)
    ∙ ap₂ ◌++◌ same_tasks
        (ap₂ (λ os qs. zip (os ++ opens_of es) (qs ++ streams_of es)) same_opens same_streams)
link_round-tasks l other_message es n =
    pair_off-zip l l.pending_opens l.pending_streams (opens_of es) (streams_of es)
link_round-tasks l link_closed es n = absurd (n refl)

link_round-IsPaired : (l : LinkState) (e : LinkEvent) → IsPaired (link_round l e)
unfolding link_round
link_round-IsPaired l (opens o) =
    pair_off-IsPaired l (l.pending_opens ++ (o ∷ [])) l.pending_streams
link_round-IsPaired l (media_stream q) =
    pair_off-IsPaired l l.pending_opens (l.pending_streams ++ (q ∷ []))
link_round-IsPaired l (closes id) =
    let l' = close_semantic l id in pair_off-IsPaired l' l'.pending_opens l'.pending_streams
link_round-IsPaired l _ = pair_off-IsPaired l l.pending_opens l.pending_streams

loop-tasks :
    (l : LinkState) (es : List LinkEvent)
    → IsPaired l
    → (quic_peer_loop l es).0.spawned ≡ all_tasks l es
unfolding quic_peer_loop
loop-tasks l [] h = sym (paired_end l h)
loop-tasks l (link_closed ∷ es) h = sym (paired_end l h)
loop-tasks l (opens o ∷ es) h =
    loop-tasks (link_round l (opens o)) es (link_round-IsPaired l (opens o))
    ∙ link_round-tasks l (opens o) es (λ e. cc)
loop-tasks l (media_stream q ∷ es) h =
    loop-tasks (link_round l (media_stream q)) es (link_round-IsPaired l (media_stream q))
    ∙ link_round-tasks l (media_stream q) es (λ e. cc)
loop-tasks l (closes id ∷ es) h =
    loop-tasks (link_round l (closes id)) es (link_round-IsPaired l (closes id))
    ∙ link_round-tasks l (closes id) es (λ e. cc)
loop-tasks l (other_message ∷ es) h =
    loop-tasks (link_round l other_message) es (link_round-IsPaired l other_message)
    ∙ link_round-tasks l other_message es (λ e. cc)

-- However requests, media streams and other messages come in on a new link, the tasks started until
-- its end are those for the first request with the first media stream, the second with the second,
-- and so on, as far as both have come.
pub quic_peer_loop-zip :
    (s : RelayState) (es : List LinkEvent)
    → (quic_peer_loop (new_link s) es).0.spawned ≡ zip (opens_of es) (streams_of es)
quic_peer_loop-zip s es = loop-tasks (new_link s) es (inl refl)
