-- ===== src/LlamaSwap/Tests.antt =====
-- llama-swap.go on concrete inputs.
use llmsnap.LlamaSwap.{startup, listen_address, listens}
use llmsnap.LlamaSwap.Debounce.{debounced, pauses, debounced_lem}
use llmsnap.Prelude.{List, ℕ, ◌∷◌, ◌≡◌, [], text_eq, codes, none, refl, false, true}

abbrev calls_at : List ℕ
calls_at = 0 ∷ 5 ∷ 30 ∷ []

debounced_lem_example :
    (debounced 10 (0 ∷ 5 ∷ 30 ∷ []) (record { deadline = none; runs = [] })).runs
    ≡ pauses 10 (0 ∷ 5 ∷ 30 ∷ [])
debounced_lem_example = debounced_lem 10 (0 ∷ 5 ∷ 30 ∷ [])

two_runs : pauses 10 calls_at ≡ (15 ∷ 40 ∷ [])
two_runs = refl

default_tls :
    startup
      (record { listen = []; cert_file = codes "c"; key_file = codes "k"; show_version = false })
      true
      true
    ≡ listens (codes ":8443") true
unfolding startup listen_address text_eq
default_tls = refl
