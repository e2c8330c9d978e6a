-- ===== src/WolProxy/Waits.antt =====
-- cmd/wol-proxy/wol-proxy.go: a request that waits for the upstream.
use llmsnap.Prelude.{
  Bool, Text, List, text_eq, ◌++◌, codes, ◌∷◌, ◌≡◌, [], false, has_prefix, ap, refl, arith,
  if◌then◌else◌, true, not, inl, inr, ◌⊎◌,
}
use llmsnap.WolProxy.{
  on_events, serve_http, wait_ready, on_event, seen_at, is_ready, reset_failures, set_status,
  MonitorEvent, ProxyServer, connected, ready, upstream, is_page, WolReply,
}

status-on_events :
    (es : List MonitorEvent) (p : ProxyServer) → (on_events (es ++ connected ∷ []) p).status ≡ ready
unfolding on_events on_event reset_failures set_status
status-on_events [] p = refl
status-on_events (e ∷ es) p = status-on_events es (on_event e p)

wait_ready-seen_at :
    (before : List (List MonitorEvent)) (es : List MonitorEvent) (after : List (List MonitorEvent))
    (p : ProxyServer)
    → wait_ready (seen_at (before ++ (es ++ connected ∷ []) ∷ after) p) ≡ upstream
unfolding wait_ready seen_at is_ready
wait_ready-seen_at [] es after p =
    ap
      (λ s.
        if is_ready s
        then upstream
        else wait_ready (seen_at after (on_events (es ++ connected ∷ []) p)))
      (status-on_events es p)
wait_ready-seen_at (b ∷ before) es after p =
    sooner (is_ready (on_events b p).status) (wait_ready-seen_at before es after (on_events b p))
  where
    sooner : {r : WolReply} → (c : Bool) → r ≡ upstream → (if c then upstream else r) ≡ upstream
    sooner true e = refl
    sooner false e = e

-- The monitor connects and stays connected until the next tick, before the timeout.
pub record Connects (ticks : List (List MonitorEvent)) : Type 0 where
  pub before : List (List MonitorEvent)
  pub es : List MonitorEvent
  pub after : List (List MonitorEvent)
  pub is : ticks ≡ before ++ (es ++ connected ∷ []) ∷ after

-- Neither a stream of events nor a page is asked for, and the monitor connects.
pub record Awaited (path : Text) (ticks : List (List MonitorEvent)) : Type 0 where
  pub not_events : has_prefix path (codes "/api/events") ≡ false
  pub not_page : is_page path ≡ false
  pub connects : Connects ticks

-- A request for anything but the status reaches the upstream, if the upstream is ready, whatever the
-- monitor comes to; or if it is not for the events or a page, and the monitor connects and stays
-- connected until the next tick before the timeout. A magic packet is sent exactly if the upstream was
-- not ready.
pub serve_http-upstream :
    (is_get : Bool) (path : Text) (ticks : List (List MonitorEvent)) (p : ProxyServer)
    → text_eq path (codes "/status") ≡ false
    → (p.status ≡ ready) ⊎ Awaited path ticks
    → serve_http is_get path ticks p ≡ (upstream, not (is_ready p.status))
unfolding serve_http is_ready
serve_http-upstream is_get path ticks p not_status (inl now) =
    ground (arith, not_status, ap is_ready now)
serve_http-upstream is_get path ticks p not_status (inr a) = ground (
  arith,
  not_status,
  a.not_events,
  a.not_page,
  ap (λ t. wait_ready (seen_at t p)) a.connects.is,
  wait_ready-seen_at a.connects.before a.connects.es a.connects.after p,
)
