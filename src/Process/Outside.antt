-- ===== src/Process/Outside.antt =====
-- proxy/process.go: what a process sends to its upstream and runs on the system. The packages url and
-- http are arguments.
use llmsnap.Config.Commands.{sanitize_command}
use llmsnap.Config.{HttpEndpoint, ModelConfig, ConfigError}
use llmsnap.Prelude.{
  List, Option, Text, ℕ, Bool, Result, codes, if◌then◌else◌, some, ℤ, err, none, pos, text_eq, ◌==◌,
  [], ok, replace_all, show,
}

-- A request that is sent.
pub record Sent : Type 0 where
  pub method : Text
  pub url : Text
  pub body : Text
  pub content_type : Text
  pub timeout : ℤ

pub data HttpError : Type 0 where
  endpoint_empty proxy_unparsed endpoint_unparsed not_created not_answered : HttpError
  status_code : ℕ → HttpError

-- `url.Parse`, `ResolveReference` with `String`, whether `NewRequest` takes a method and a URL, and the
-- status of the upstream's answer, if it answers in time.
pub record Web (Url : Type 0) : Type 0 where
  pub parse : Text → Option Url
  pub resolve : Url → Url → Text
  pub can_create : Text → Text → Bool
  pub answer : Sent → Option ℕ

module _ {Url : Type 0} (web : Web Url) where
  unfoldable pub resolve_both : Option Url → Option Url → Result HttpError Text
  resolve_both none endpoint = err proxy_unparsed
  resolve_both (some base) none = err endpoint_unparsed
  resolve_both (some base) (some endpoint) = ok (web.resolve base endpoint)

  unfoldable pub build_full_url : ModelConfig → Text → Result HttpError Text
  build_full_url config endpoint =
      if text_eq endpoint []
      then err endpoint_empty
      else resolve_both (web.parse config.proxy) (web.parse endpoint)

  unfoldable pub request_to : HttpEndpoint → Text → Sent
  request_to endpoint url = record {
    method = endpoint.method;
    url = url;
    body = endpoint.body;
    content_type = if text_eq endpoint.body [] then [] else codes "application/json";
    timeout = endpoint.timeout;
  }

  unfoldable pub check_answer : Option ℕ → Option HttpError
  check_answer none = some not_answered
  check_answer (some status) = if status == 200 then none else some (status_code status)

  unfoldable pub send_to : HttpEndpoint → Result HttpError Text → Option HttpError
  send_to endpoint (err e) = some e
  send_to endpoint (ok url) =
      if web.can_create endpoint.method url
      then check_answer (web.answer (request_to endpoint url))
      else some not_created

  -- `sendHTTPRequest`; `none` is Go's nil.
  unfoldable pub send_http_request : ModelConfig → HttpEndpoint → Option HttpError
  send_http_request config endpoint = send_to endpoint (build_full_url config endpoint.endpoint)

  unfoldable pub check_health_endpoint : ModelConfig → Text → Option HttpError
  check_health_endpoint config endpoint =
      send_http_request config
        (record { method = codes "GET"; endpoint = endpoint; timeout = pos 5; body = [] })

-- What `cmdStopUpstreamProcess` comes to; the flags say whether running or signalling succeeds.
pub data StopAttempt : Type 0 where
  nothing_runs unsanitized_stop : StopAttempt
  ran_command : List Text → Bool → StopAttempt
  sent_sigterm : Bool → StopAttempt

unfoldable pub run_stop : (List Text → Bool) → Result ConfigError (List Text) → StopAttempt
run_stop run (err e) = unsanitized_stop
run_stop run (ok args) = ran_command args (run args)

-- `shlex` splits a command as a shell does; `pid` is none where there is no command or process.
unfoldable pub cmd_stop_upstream_process :
    (Text → List Text) → (List Text → Bool) → Bool → ModelConfig → Option ℕ → StopAttempt
cmd_stop_upstream_process shlex run signal_works config none = nothing_runs
cmd_stop_upstream_process shlex run signal_works config (some pid) =
    let command = replace_all config.cmd_stop (codes "${PID}") (show (pos pid)) in
    if text_eq config.cmd_stop []
    then sent_sigterm signal_works
    else run_stop run (sanitize_command shlex command)
