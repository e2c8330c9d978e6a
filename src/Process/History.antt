-- ===== src/Process/History.antt =====
-- proxy/process.go: what every method does to the log of state changes and to the channels, beside
-- any other goroutines.
use llmsnap.Process.Sleep.{sleep, make_idle, make_ready}
use llmsnap.Process.Methods.{
  stop-Guarantee, stop_immediately-Guarantee, shut_down-Guarantee, sleep-Guarantee,
  make_idle-Guarantee, make_ready-Guarantee, proxy_request-Guarantee, unload_tick-Guarantee,
}
use llmsnap.Process.Stop.{stop, stop_immediately, shut_down}
use llmsnap.Process.Request.{Request, proxy_request, unload_tick}
use llmsnap.Process.Frame.{
  Frame, Orderly, Ensures, Guarantee, AllAllowed, Kept, bind-Guarantee, return-Guarantee,
}
use llmsnap.Config.{ModelConfig}
use llmsnap.Process.Start.{Launch}
use llmsnap.Prelude.{List, ℕ, Bool, true, ◌∷◌, [], refl}
use llmsnap.Process.Schedule.{exhausted, M, World, ◌>>◌, return, Action, Outcome, done, blocked}
use llmsnap.Process.Evolves.{Evolves, Evolves-refl, Evolves-trans, act-Evolves}

-- A call of a method, with what it meets outside.
pub data Call : Type 0 where
  stops stops_immediately shuts_down : Call
  sleeps idles : (ℕ → Bool) → Call
  readies : (ℕ → Bool) → Launch → Call
  requests : Request → Call
  ticks : ℕ → ℕ → Call

unfoldable pub run_call : ModelConfig → Call → M (Unit {0})
run_call config stops = stop
run_call config stops_immediately = stop_immediately
run_call config shuts_down = shut_down
run_call config (sleeps answers) = sleep config answers
run_call config (idles answers) = make_idle config answers
run_call config (readies answers l) = make_ready config answers l >> return tt
run_call config (requests r) = proxy_request config r >> return tt
run_call config (ticks max now) = unload_tick max now >> return tt

abbrev pub history : Frame
history = record {
  requests = true;
  Keeps = Evolves;
  same = Evolves-refl;
  chain = Evolves-trans;
  step = λ a p h. act-Evolves a p;
}

run_call-Guarantee : (config : ModelConfig) (c : Call) → Guarantee history (run_call config c)
unfolding run_call
run_call-Guarantee config stops = stop-Guarantee history
run_call-Guarantee config stops_immediately = stop_immediately-Guarantee history
run_call-Guarantee config shuts_down = shut_down-Guarantee history
run_call-Guarantee config (sleeps answers) = sleep-Guarantee history config answers
run_call-Guarantee config (idles answers) = make_idle-Guarantee history config answers
run_call-Guarantee config (readies answers l) =
    bind-Guarantee _ _ (make_ready-Guarantee history config answers l) λ r. return-Guarantee tt
run_call-Guarantee config (requests r) =
    bind-Guarantee _ _ (proxy_request-Guarantee history refl config r) λ _. return-Guarantee tt
run_call-Guarantee config (ticks max now) =
    bind-Guarantee _ _ (unload_tick-Guarantee history max now) λ _. return-Guarantee tt

pub all-Orderly : (bs : List (List Action)) → Orderly true bs
all-Orderly [] = tt
all-Orderly (b ∷ bs) = (each b, all-Orderly bs)
  where
    each : (b : List Action) → AllAllowed true b
    each [] = tt
    each (a ∷ b) = (refl, each b)

-- Whatever method is called, and whatever the other goroutines do before each of its critical
-- sections: when it returns, every state change logged since is a valid transition, no logged change
-- is lost, a closed channel is still closed, and a panic is not undone.
pub run_call-Evolves :
    (config : ModelConfig) (c : Call) (w : World)
    → Ensures (λ _ v. Evolves w.process v.process) (run_call config c w)
run_call-Evolves config c w =
    weaken (run_call config c w) ((run_call-Guarantee config c).holds w (all-Orderly w.others))
  where
    weaken :
        (o : Outcome (Unit {0}))
        → Ensures (λ _ v. Kept history w.process v) o
        → Ensures (λ _ v. Evolves w.process v.process) o
    weaken (done a v) h = h.0
    weaken blocked h = tt
    weaken exhausted h = tt
