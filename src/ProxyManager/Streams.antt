-- ===== src/ProxyManager/Streams.antt =====
-- proxy/proxymanager_loghandlers.go and proxy/proxymanager_api.go: a response that is written from a
-- channel with room for some messages, and the streams of logs and of events.
use llmsnap.MetricsMonitor.{TokenMetrics}
use llmsnap.ProxyManager.Api.{Model, get_model_status, without_slash}
use llmsnap.ProxyManager.Paths.{ModelPath, find_model_in_path}
use llmsnap.ProcessGroup.{ProcessGroup, get_member}
use llmsnap.Process.{ProcessState}
use llmsnap.ProxyManager.{ProxyManager, ProcessGroup}
use llmsnap.Prelude.{
  Bool, List, Option, Text, ℕ, if◌then◌else◌, some, true, ◌∷◌, [], codes, contains_text, ltb, none,
  text_eq, ◌++◌, ◌||◌, length, map, false, ◌==◌,
}

-- What happens to a stream: a callback offers a message, the loop takes one, or the loop ends with the
-- request or the manager.
pub data StreamStep (A : Type 0) : Type 0 where
  offers : A → StreamStep A
  takes ends : StreamStep A

-- What was written, oldest first, and what the channel holds.
pub record Stream (A : Type 0) : Type 0 where
  pub sent : List A
  pub queue : List A
  pub ended : Bool

-- A send that does not block.
unfoldable pub offer : {A : Type 0} → ℕ → A → Stream A → Stream A
offer room message s =
    if ltb (length s.queue) room then record s { queue = s.queue ++ (message ∷ []) } else s

unfoldable pub take_from : {A : Type 0} → List A → Stream A → Stream A
take_from [] s = s
take_from (message ∷ queue) s = record s { sent = s.sent ++ (message ∷ []); queue = queue }

unfoldable pub stream_step : {A : Type 0} → ℕ → StreamStep A → Stream A → Stream A
stream_step room (offers message) s = offer room message s
stream_step room takes s = take_from s.queue s
stream_step room ends s = record s { ended = true }

unfoldable pub run_stream : {A : Type 0} → ℕ → List (StreamStep A) → Stream A → Stream A
run_stream room [] s = s
run_stream room (step ∷ steps) s =
    let rest = run_stream room steps (stream_step room step s) in if s.ended then s else rest

-- A log monitor that a client may name.
pub data LogSource (P : Type 0) : Type 0 where
  mux_log proxy_log upstream_log : LogSource P
  process_log : P → LogSource P

-- The loop over the groups for a member.
unfoldable pub member_log :
    {P : Type 0} → Text → List (Text × ProcessGroup P) → Option (LogSource P)
member_log name [] = none
member_log name ((id, group) ∷ groups) =
    let rest = member_log name groups in
    elim (get_member name group) [ none ↦ rest | some p ↦ some (process_log p) ]

unfoldable pub model_log : {P : Type 0} → Option ModelPath → ProxyManager P → Option (LogSource P)
model_log none pm = none
model_log (some found) pm = member_log found.real_name pm.process_groups

unfoldable pub get_logger : {P : Type 0} → Text → ProxyManager P → Option (LogSource P)
get_logger id pm =
    if text_eq id []
    then some mux_log
    else if text_eq id (codes "proxy")
    then some proxy_log
    else if text_eq id (codes "upstream")
    then some upstream_log
    else model_log (find_model_in_path pm.config (47 ∷ id)) pm

-- What a handler of logs answers: a redirect, a text, an error with its status, or a stream.
pub data LogAnswer : Type 0 where
  log_redirect : Text → LogAnswer
  log_text : List ℕ → LogAnswer
  log_failed : ℕ → LogAnswer
  log_stream : Stream (List ℕ) → LogAnswer

-- `sendLogsHandlers`, with the history of the common monitor.
unfoldable pub send_logs_handler : Text → List ℕ → LogAnswer
send_logs_handler accept history =
    if contains_text accept (codes "text/html")
    then log_redirect (codes "/ui/")
    else log_text history

-- What is written before the loop.
unfoldable pub send_history : Bool → List ℕ → Stream (List ℕ)
send_history skip_history history = record {
  sent = if skip_history || length history == 0 then [] else history ∷ [];
  queue = [];
  ended = false;
}

unfoldable pub stream_logs_of :
    {P : Type 0}
    → (LogSource P → List ℕ)
    → Bool
    → List (StreamStep (List ℕ))
    → Option (LogSource P)
    → LogAnswer
stream_logs_of history skip_history steps none = log_failed 400
stream_logs_of history skip_history steps (some source) =
    log_stream (run_stream 10 steps (send_history skip_history (history source)))

-- `streamLogsHandler` for a writer that can flush; `steps` is what happens to the stream.
unfoldable pub stream_logs_handler :
    {P : Type 0}
    → (LogSource P → List ℕ)
    → Text
    → Bool
    → List (StreamStep (List ℕ))
    → ProxyManager P
    → LogAnswer
stream_logs_handler history param skip_history steps pm =
    stream_logs_of history skip_history steps (get_logger (without_slash param) pm)

-- A message of `apiSendEvents`, less its JSON.
pub data Envelope : Type 0 where
  model_status : List Model → Envelope
  log_data : Text → List ℕ → Envelope
  metrics_data : List TokenMetrics → Envelope

-- What the handler has subscribed to, with what it reads then.
pub data ServerEvent (P : Type 0) : Type 0 where
  state_changed config_changed : ProxyManager P → ServerEvent P
  proxy_logged upstream_logged : List ℕ → ServerEvent P
  metrics_added : TokenMetrics → ServerEvent P

module _ {P : Type 0} (state_of : P → ProcessState) where
  unfoldable pub envelope_of : ServerEvent P → Envelope
  envelope_of (state_changed pm) = model_status (get_model_status state_of pm)
  envelope_of (config_changed pm) = model_status (get_model_status state_of pm)
  envelope_of (proxy_logged data') = log_data (codes "proxy") data'
  envelope_of (upstream_logged data') = log_data (codes "upstream") data'
  envelope_of (metrics_added m) = metrics_data (m ∷ [])

  -- The steps of the messages that are sent at first.
  unfoldable pub initial_batch :
      List ℕ → List ℕ → List TokenMetrics → ProxyManager P → List (StreamStep Envelope)
  initial_batch proxy_history upstream_history metrics pm =
      offers (log_data (codes "proxy") proxy_history)
      ∷ offers (log_data (codes "upstream") upstream_history)
      ∷ offers (model_status (get_model_status state_of pm))
      ∷ offers (metrics_data metrics)
      ∷ []

  unfoldable pub event_step : StreamStep (ServerEvent P) → StreamStep Envelope
  event_step (offers e) = offers (envelope_of e)
  event_step takes = takes
  event_step ends = ends

  -- `apiSendEvents`, where nothing happens between the subscriptions and the first messages.
  unfoldable pub api_send_events :
      List ℕ
      → List ℕ
      → List TokenMetrics
      → ProxyManager P
      → List (StreamStep (ServerEvent P))
      → Stream Envelope
  api_send_events proxy_history upstream_history metrics pm steps =
      run_stream 25
        (initial_batch proxy_history upstream_history metrics pm ++ map event_step steps)
        (record { sent = []; queue = []; ended = false })
