-- ===== src/ProcessGroup/Tests.antt =====
-- proxy/processgroup.go: a group on concrete inputs.
use llmsnap.Process.Request.{Request, proxied}
use llmsnap.Prelude.{
  ◌∷◌, [], codes, Bool, List, contains, text_eq, true, ◌≡◌, false, inl, arith, none, refl, inr,
}
use llmsnap.ProcessGroup.{ProcessApi, ProcessGroup, Request}
use llmsnap.ProcessGroup.Calls.{GroupCall, calls, requests, sleeps}
use llmsnap.ProcessGroup.OneUp.{Promises, IsSwapped, calls-IsSwapped}

-- A process that is up or not, and keeps being so while it sleeps.
abbrev light : ProcessApi Bool
light = record {
  proxy_request = λ r p. (proxied, true);
  make_idle = λ p. false;
  stop = λ s p. false;
  sleep = λ p. p;
  shut_down = λ p. false;
  is_sleep_enabled = λ p. true;
}

abbrev IsOut : Bool → Type 0
IsOut b = b ≡ false

light-Promises : Promises light IsOut
light-Promises = record {
  made_idle = λ p. refl;
  stopped = λ s p. refl;
  shut = λ p. refl;
  slept = λ p h. h;
}

abbrev group : ProcessGroup Bool
group = record {
  swap = true;
  exclusive = false;
  persistent = false;
  members = codes "a" ∷ codes "b" ∷ [];
  processes = (codes "a", true) ∷ (codes "b", false) ∷ [];
  last_used_process = codes "a";
}

abbrev asked : Request
asked = record {
  reverse_proxy = true;
  streaming = false;
  is_chat_completions = true;
  wake_answers = λ i. true;
  launch = record {
    args = none;
    command_starts = true;
    health_url = true;
    check_endpoint = [];
    max_duration = 1;
    polls = λ k. record { elapsed = k; healthy = true };
    fuel = 3;
  };
  ends_at = 4;
}

abbrev in_turn : List GroupCall
in_turn = requests (codes "b") asked ∷ sleeps (codes "a") ∷ requests (codes "a") asked ∷ []

group-IsSwapped : IsSwapped IsOut group
unfolding contains text_eq
group-IsSwapped = record {
  swaps = refl;
  named = refl;
  idle = (inl (refl, ground arith), (inr refl, tt));
}

calls-IsSwapped_case : IsSwapped IsOut (calls light in_turn group)
calls-IsSwapped_case = calls-IsSwapped light IsOut light-Promises in_turn group group-IsSwapped
