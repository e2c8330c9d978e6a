-- ===== src/Process/Request.antt =====
-- proxy/process.go: `ProxyRequest`, and the TTL monitor of `startUnloadMonitoring`.
use llmsnap.Prelude.{
  ℕ, ◌-◌, ◌==◌, ltb, ltb_ℤ, pos, pos_part, Bool, false, not, ◌||◌, ◌&&◌, Option, none, some,
  if◌then◌else◌,
}
use llmsnap.Config.{ModelConfig}
use llmsnap.Process.{
  ProcessState, state_eq, ready, stopping, shutdown, sleep_pending, asleep, waking,
}
use llmsnap.Process.Schedule.{
  M, ◌>>=◌, ◌>>◌, return, get, modify, atomically, add_in_flight, done_in_flight, count_request,
  discount_request, set_last_request_handled, try_acquire, release_slot,
}
use llmsnap.Process.Stop.{stop}
use llmsnap.Process.Start.{ReadyError, Launch}
use llmsnap.Process.Sleep.{make_ready}

-- What the client gets: an error of this process with its HTTP status, the error as an event of a
-- stream that has begun with status 200, or the upstream's reply.
pub data Reply : Type 0 where
  no_reverse_proxy : Reply
  unavailable : ProcessState → Reply
  too_many_requests : Reply
  bad_gateway streamed_error : ReadyError → Reply
  proxied : Reply

-- The status that the process itself writes; `none` where the upstream's is passed on.
unfoldable pub status : Reply → Option ℕ
status no_reverse_proxy = some 500
status (unavailable s) = some 503
status too_many_requests = some 429
status (bad_gateway e) = some 502
status (streamed_error e) = some 200
status proxied = none

-- One request with its surroundings: whether the proxy URL was parsed, whether the loading state is
-- to be streamed (a streaming chat completion), what waking and starting meet, and the time at its end.
pub record Request : Type 0 where
  pub reverse_proxy : Bool
  pub streaming : Bool
  pub is_chat_completions : Bool
  pub wake_answers : ℕ → Bool
  pub launch : Launch
  pub ends_at : ℕ

-- `defaultConcurrentLimit`, or the configured limit if that is positive.
unfoldable pub concurrent_limit : ModelConfig → ℕ
concurrent_limit config =
    if ltb_ℤ (pos 0) config.concurrency_limit then pos_part config.concurrency_limit else 100

unfoldable pub sends_loading_state : ModelConfig → Request → Bool
sends_loading_state config r =
    elim config.send_loading_state [ none ↦ false | some b ↦ b ]
    && r.streaming
    && r.is_chat_completions

unfoldable pub reply_to : Bool → Option ReadyError → Reply
reply_to streamed none = proxied
reply_to streamed (some e) = if streamed then streamed_error e else bad_gateway e

-- From the in-flight count to the reply.
unfoldable pub serve : ModelConfig → Request → M Reply
serve config r = do
  state ← get (λ p. p.state)
  if state_eq state ready then return proxied else do
    failure ← make_ready config r.wake_answers r.launch
    return (reply_to (sends_loading_state config r) failure)

-- The deferred calls, the last deferred first.
unfoldable pub finish_request : ℕ → M (Unit {0})
finish_request now = do
  modify (set_last_request_handled now)
  modify discount_request
  modify done_in_flight
  modify release_slot

unfoldable pub admit : ModelConfig → Request → M Reply
admit config r = do
  acquired ← atomically (try_acquire (concurrent_limit config))
  if not acquired then return too_many_requests else do
    modify add_in_flight
    modify count_request
    reply ← serve config r
    finish_request r.ends_at
    return reply

unfoldable pub proxy_request : ModelConfig → Request → M Reply
proxy_request config r = if not r.reverse_proxy then return no_reverse_proxy else do
  state ← get (λ p. p.state)
  if state_eq state shutdown || state_eq state stopping || state_eq state sleep_pending
      then return (unavailable state)
      else admit config r

pub data Tick : Type 0 where
  ends skips unloads : Tick

-- One tick of the TTL monitor at time `now`.
unfoldable pub unload_tick : ℕ → ℕ → M Tick
unload_tick max_duration now = do
  state ← get (λ p. p.state)
  if not (
        state_eq state ready
        || state_eq state sleep_pending
        || state_eq state asleep
        || state_eq state waking)
      then return ends
      else do
        count ← get (λ p. p.in_flight_requests_count)
        if not (count == 0) then return skips else do
          last ← get (λ p. p.last_request_handled)
          if ltb max_duration (now - last) then (stop >> return unloads) else return skips
