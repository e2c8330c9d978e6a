-- ===== src/WolProxy.antt =====
-- cmd/wol-proxy/wol-proxy.go: a proxy that wakes its upstream over the network. Flags, sockets, the
-- stream's contents and the page are left out.
pub mod Waits
mod Tests
use llmsnap.Prelude.{
  Bool, List, Text, ℕ, Option, [], false, if◌then◌else◌, text_eq, ◌+◌, ◌∷◌, codes, length, suc,
  true, ◌&&◌, has_prefix, ◌++◌, ◌==◌, ◌||◌, some, zero, replicate, none,
}

pub data UpstreamStatus : Type 0 where
  not_ready ready : UpstreamStatus

pub record ProxyServer : Type 0 where
  pub fail_count : ℕ
  pub status : UpstreamStatus

-- What the monitor's loop comes to: it fails to ask, to connect or to get a 200, it connects, or the
-- stream that it read ends.
pub data MonitorEvent : Type 0 where
  request_failed connect_failed refused connected closed : MonitorEvent

unfoldable pub set_status : UpstreamStatus → ProxyServer → ProxyServer
set_status status p = record p { status = status }

unfoldable pub inc_fail : ℕ → ProxyServer → ProxyServer
inc_fail num p = record p { fail_count = p.fail_count + num }

unfoldable pub reset_failures : ProxyServer → ProxyServer
reset_failures p = record p { fail_count = 0 }

unfoldable pub new_proxy : ProxyServer
new_proxy = record { fail_count = 0; status = not_ready }

unfoldable pub on_event : MonitorEvent → ProxyServer → ProxyServer
on_event connected p = reset_failures (set_status ready p)
on_event request_failed p = inc_fail 1 (set_status not_ready p)
on_event connect_failed p = inc_fail 1 (set_status not_ready p)
on_event refused p = inc_fail 1 (set_status not_ready p)
on_event closed p = inc_fail 1 (set_status not_ready p)

unfoldable pub on_events : List MonitorEvent → ProxyServer → ProxyServer
on_events [] p = p
on_events (e ∷ es) p = on_events es (on_event e p)

unfoldable pub is_ready : UpstreamStatus → Bool
is_ready not_ready = false
is_ready ready = true

-- What a request is answered with; the page of `/status` has the status and the failures.
pub data WolReply : Type 0 where
  status_page : UpstreamStatus → ℕ → WolReply
  no_content loading_page timed_out upstream : WolReply

-- The statuses at the ticks before the timeout, with what the monitor comes to before each.
unfoldable pub seen_at : List (List MonitorEvent) → ProxyServer → List UpstreamStatus
seen_at [] p = []
seen_at (es ∷ ticks) p = let p' = on_events es p in p'.status ∷ seen_at ticks p'

-- The loop over the ticker.
unfoldable pub wait_ready : List UpstreamStatus → WolReply
wait_ready [] = timed_out
wait_ready (s ∷ ss) = let rest = wait_ready ss in if is_ready s then upstream else rest

unfoldable pub is_page : Text → Bool
is_page path = text_eq path (codes "/") || has_prefix path (codes "/ui/")

-- `ServeHTTP`: the reply, and whether a magic packet was sent.
unfoldable pub serve_http : Bool → Text → List (List MonitorEvent) → ProxyServer → WolReply × Bool
serve_http is_get path ticks p =
    if is_get && text_eq path (codes "/status")
    then (status_page p.status p.fail_count, false)
    else if is_ready p.status
    then (upstream, false)
    else if has_prefix path (codes "/api/events")
    then (no_content, false)
    else if is_page path
    then (loading_page, true)
    else (wait_ready (seen_at ticks p), true)

unfoldable pub repeated : ℕ → List ℕ → List ℕ
repeated zero hw_addr = []
repeated (suc n) hw_addr = hw_addr ++ repeated n hw_addr

-- The packet of `sendMagicPacket`, for the bytes that the address was parsed to.
unfoldable pub magic_packet : List ℕ → Option (List ℕ)
magic_packet hw_addr =
    if length hw_addr == 6 then some (replicate 6 255 ++ repeated 16 hw_addr) else none
