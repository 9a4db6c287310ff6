-- ===== src/Relay/Proxy.antt =====
-- Proxied streams.
use stross.Base.{ℕ, suc, ◌≡◌, refl, ap, ◌∙◌, Bool, true, false, ◌∷◌, Option, arith}
use stross.Base.Keyed
use stross.Base.Keyed.{is_some}
use stross.Base.Result.{ok, err}
use stross.Proto.Message.{Text, Text-discrete}
use stross.Relay.{
  RelayState, StreamInfo, ProxyEntry, stream_started, stream_ended, get, add_stream, end_stream,
  start_proxy, remove_proxy, placeholder, unwrap_or, proxy_exists, stream_exists,
}
use stross.Relay.Laws.{
  IsRelay, is_live, add_stream-IsRelay, get-add_stream, get-end_stream, proxies-end_stream,
  events-end_stream,
}

abbrev pub is_proxied : RelayState → Text → Bool
is_proxied s id = is_some (Keyed.lookup Text-discrete id s.proxies)

-- A proxy for an id that has one, or that a stream has, is refused and nothing changes.
pub start_proxy_taken :
    (s : RelayState) (upstream id : Text) (info : Option StreamInfo) (now : ℕ)
    → (is_proxied s id ≡ true → start_proxy s upstream id info now ≡ (err (proxy_exists id), s))
      × (is_proxied s id ≡ false
          → is_live s id ≡ true
          → start_proxy s upstream id info now ≡ (err (stream_exists id), s))
unfolding start_proxy
start_proxy_taken s upstream id info now = (λ e. ground (arith, e), λ e f. ground (arith, e, f))

-- What `start_proxy` leaves on success.
proxied : RelayState → Text → Text → StreamInfo → RelayState
unfolding add_stream
proxied s upstream id info =
    let made = add_stream s info in
    let proxy : ProxyEntry = record { upstream = upstream; task = s.next_task } in
    record made {
      proxies = Keyed.insert Text-discrete id proxy made.proxies;
      next_task = suc made.next_task;
      events = stream_started id info ∷ s.events;
    }

start_proxy-proxied :
    (s : RelayState) (upstream id : Text) (info : Option StreamInfo) (now : ℕ)
    → is_proxied s id ≡ false
    → is_live s id ≡ false
    → start_proxy s upstream id info now
      ≡ (ok id, proxied s upstream id (unwrap_or info (placeholder id now)))
unfolding start_proxy proxied
start_proxy-proxied s upstream id info now fresh free = ground (arith, fresh, free)

module _ (s : RelayState) (upstream id : Text) (info : StreamInfo) (v : IsRelay s) where
  get-proxied : (j : Text) → get (proxied s upstream id info) j ≡ get (add_stream s info) j
  unfolding proxied get
  get-proxied j = refl

  proxied-IsRelay : IsRelay (proxied s upstream id info)
  unfolding proxied
  proxied-IsRelay = add_stream-IsRelay s info v

  -- Removing the proxy ends its stream and forgets its task.
  remove_proxy-proxied :
      remove_proxy (proxied s upstream id info) id
      ≡ end_stream
          (record (proxied s upstream id info) {
            proxies = Keyed.remove Text-discrete id (proxied s upstream id info).proxies;
          })
          id
  unfolding remove_proxy proxied
  remove_proxy-proxied = ground arith

  proxied_known : is_proxied (proxied s upstream id info) id ≡ true
  unfolding proxied
  proxied_known = ground arith

  module _ (named : info.stream_id ≡ id) (fresh : is_proxied s id ≡ false)
      (free : is_live s id ≡ false) where
    before_end : RelayState
    before_end = record (proxied s upstream id info) {
      proxies = Keyed.remove Text-discrete id (proxied s upstream id info).proxies;
    }

    get-before_end : (j : Text) → get before_end j ≡ get (add_stream s info) j
    unfolding before_end proxied get
    get-before_end j = refl

    before_end-IsRelay : IsRelay before_end
    unfolding before_end
    before_end-IsRelay = proxied-IsRelay

    live-proxied : is_live (proxied s upstream id info) id ≡ true
    live-proxied = ground (arith, get-proxied id, get-add_stream s info id v, named)

    get-removed : (j : Text) → get (remove_proxy (proxied s upstream id info) id) j ≡ get s j
    unfolding before_end
    get-removed j =
        ap (λ (r : RelayState). get r j) remove_proxy-proxied
        ∙ get-end_stream before_end id j before_end-IsRelay
        ∙ ground (arith, get-before_end j, get-add_stream s info j v, named, free)

    proxies-removed :
        (j : Text)
        → Keyed.lookup Text-discrete j (remove_proxy (proxied s upstream id info) id).proxies
          ≡ Keyed.lookup Text-discrete j s.proxies
    unfolding before_end proxied add_stream
    proxies-removed j =
        ap (λ (r : RelayState). Keyed.lookup Text-discrete j r.proxies) remove_proxy-proxied
        ∙ ap (Keyed.lookup Text-discrete j) (proxies-end_stream before_end id)
        ∙ Keyed.lookup-remove-insert Text-discrete id j
            (record { upstream = upstream; task = s.next_task }) s.proxies fresh

    events-removed :
        (remove_proxy (proxied s upstream id info) id).events
        ≡ stream_ended id ∷ stream_started id info ∷ s.events
    unfolding before_end proxied
    events-removed =
        ap (λ (r : RelayState). r.events) remove_proxy-proxied
        ∙ events-end_stream before_end id
        ∙ ground (arith, get-before_end id, get-add_stream s info id v, named)

-- A proxy for a free id, with information that names this id: the stream is live until the proxy is
-- removed, its start and its end are reported, and then every lookup of streams and proxies is as
-- before.
pub remove_proxy-start_proxy :
    (s : RelayState) (upstream id : Text) (info : Option StreamInfo) (now : ℕ)
    → IsRelay s
    → is_proxied s id ≡ false
    → is_live s id ≡ false
    → (unwrap_or info (placeholder id now)).stream_id ≡ id
    → let (answer, started) = start_proxy s upstream id info now in
      let t = remove_proxy started id in
      (answer ≡ ok id)
      × (is_live started id ≡ true)
      × (is_proxied started id ≡ true)
      × ((j : Text) → get t j ≡ get s j)
      × ((j : Text)
          → Keyed.lookup Text-discrete j t.proxies ≡ Keyed.lookup Text-discrete j s.proxies)
      × (t.events
          ≡ stream_ended id ∷ stream_started id (unwrap_or info (placeholder id now)) ∷ s.events)
remove_proxy-start_proxy s upstream id info now v fresh free named =
    let x = unwrap_or info (placeholder id now) in
    let e = start_proxy-proxied s upstream id info now fresh free in
    rw e (
      refl,
      live-proxied s upstream id x v named fresh free,
      proxied_known s upstream id x v,
      get-removed s upstream id x v named fresh free,
      proxies-removed s upstream id x v named fresh free,
      events-removed s upstream id x v named fresh free,
    )
