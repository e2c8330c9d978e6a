-- ===== src/Process/Stop.antt =====
-- proxy/process.go: `Stop`, `StopImmediately`, `Shutdown` and `stopCommand`.
use llmsnap.Prelude.{◌==◌, not, if◌then◌else◌}
use llmsnap.Process.{is_valid_transition, swap_state, force_state, closed_in, stopping, shutdown}
use llmsnap.Process.Schedule.{M, ◌>>=◌, ◌>>◌, return, on_none, get, modify, atomically, wait_until}

-- Without a cancel function it only logs. Else it cancels, and waits on the channel that it read.
unfoldable pub stop_command : M (Unit {0})
stop_command = do
  (cancel, chan) ← get (λ p. (p.cancel_upstream, p.cmd_wait_chan))
  if cancel then wait_until (λ p. closed_in p.closed chan) else return tt

unfoldable pub stop_immediately : M (Unit {0})
stop_immediately = do
  init_state ← get (λ p. p.state)
  if not (is_valid_transition init_state stopping) then return tt else do
    (cur, error) ← atomically (swap_state init_state stopping)
    on_none error stop_command (λ e. return tt)

unfoldable pub stop : M (Unit {0})
stop = do
  state ← get (λ p. p.state)
  if not (is_valid_transition state stopping)
      then return tt
      else do wait_until (λ p. p.in_flight_requests == 0); stop_immediately

unfoldable pub shut_down : M (Unit {0})
shut_down = do
  state ← get (λ p. p.state)
  if not (is_valid_transition state stopping)
      then return tt
      else do stop_command; modify (force_state shutdown)
