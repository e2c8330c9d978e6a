-- ===== src/Process/Loading.antt =====
-- proxy/process.go: what a client of a streamed chat completion sees while its model loads. The JSON
-- around a message is left out.
use llmsnap.Prelude.{
  Bool, List, Text, ℕ, codes, false, get_or, if◌then◌else◌, ◌++◌, ◌∷◌, [], suc, true, ◌%◌, ◌==◌,
  leb, length, ◌-◌,
}

abbrev pub loading_remarks : List Text
loading_remarks =
    codes "Still faster than your last standup meeting..."
    ∷ codes "Reticulating splines..."
    ∷ codes "Waking up the hamsters..."
    ∷ codes "Teaching the model manners..."
    ∷ codes "Convincing the GPU to participate..."
    ∷ codes "Loading weights (they're heavy)..."
    ∷ codes "Herding electrons..."
    ∷ codes "Compiling excuses for the delay..."
    ∷ codes "Downloading more RAM..."
    ∷ codes "Asking the model nicely to boot up..."
    ∷ codes "Bribing CUDA with cookies..."
    ∷ codes "Still loading (blame VRAM)..."
    ∷ codes "The model is fashionably late..."
    ∷ codes "Warming up those tensors..."
    ∷ codes "Making the neural net do push-ups..."
    ∷ codes "Your patience is appreciated (really)..."
    ∷ codes "Almost there (probably)..."
    ∷ codes "Loading like it's 1999..."
    ∷ codes "The model forgot where it put its keys..."
    ∷ codes "Quantum tunneling through layers..."
    ∷ codes "Negotiating with the PCIe bus..."
    ∷ codes "Defrosting frozen parameters..."
    ∷ codes "Teaching attention heads to focus..."
    ∷ codes "Running the matrix (slowly)..."
    ∷ codes "Untangling transformer blocks..."
    ∷ codes "Calibrating the flux capacitor..."
    ∷ codes "Spinning up the probability wheels..."
    ∷ codes "Waiting for the GPU to wake from its nap..."
    ∷ codes "Converting caffeine to compute..."
    ∷ codes "Allocating virtual patience..."
    ∷ codes "Performing arcane CUDA rituals..."
    ∷ codes "The model is stuck in traffic..."
    ∷ codes "Inflating embeddings..."
    ∷ codes "Summoning computational demons..."
    ∷ codes "Pleading with the OOM killer..."
    ∷ codes "Calculating the meaning of life (still at 42)..."
    ∷ codes "Training the training wheels..."
    ∷ codes "Optimizing the optimizer..."
    ∷ codes "Bootstrapping the bootstrapper..."
    ∷ codes "Loading loading screen..."
    ∷ codes "Processing processing logs..."
    ∷ codes "Buffering buffer overflow jokes..."
    ∷ codes "The model hit snooze..."
    ∷ codes "Debugging the debugger..."
    ∷ codes "Compiling the compiler..."
    ∷ codes "Parsing the parser (meta)..."
    ∷ codes "Tokenizing tokens..."
    ∷ codes "Encoding the encoder..."
    ∷ codes "Hashing hash browns..."
    ∷ codes "Forking spoons (not forks)..."
    ∷ codes "The model is contemplating existence..."
    ∷ codes "Transcending dimensional barriers..."
    ∷ codes "Invoking elder tensor gods..."
    ∷ codes "Unfurling probability clouds..."
    ∷ codes "Synchronizing parallel universes..."
    ∷ codes "The GPU is having second thoughts..."
    ∷ codes "Recalibrating reality matrices..."
    ∷ codes "Time is an illusion, loading doubly so..."
    ∷ codes "Convincing bits to flip themselves..."
    ∷ codes "The model is reading its own documentation..."
    ∷ []

-- The response: the status codes written, the messages, oldest first, and how many more the client takes
-- before it is gone. A message to a client that is gone panics.
pub record StatusWriter : Type 0 where
  pub has_written : Bool
  pub status_codes : List ℕ
  pub sent : List Text
  pub accepts : ℕ
  pub panicked : Bool

unfoldable pub write_header : ℕ → StatusWriter → StatusWriter
write_header code s =
    if s.has_written
    then s
    else record s { has_written = true; status_codes = s.status_codes ++ (code ∷ []) }

-- A goroutine that has panicked sends no more.
unfoldable pub send_data : Text → StatusWriter → StatusWriter
send_data message s =
    if s.panicked
    then s
    else if s.accepts == 0
    then record s { panicked = true }
    else record s { sent = s.sent ++ (message ∷ []); accepts = s.accepts - 1 }

unfoldable pub send_line : Text → StatusWriter → StatusWriter
send_line line s = send_data (line ++ (10 ∷ [])) s

unfoldable pub send_all : List Text → StatusWriter → StatusWriter
send_all [] s = s
send_all (message ∷ messages) s = send_all messages (send_data message s)

abbrev pub rule_line : Text
rule_line = codes "━━━━━"

-- `newStatusResponseWriter`, for the name of a process and a client that takes so many messages. It runs
-- in the goroutine of the request, before `status_updates` and its deferred functions.
unfoldable pub new_status_writer : Text → ℕ → StatusWriter
new_status_writer id accepts = send_line (codes "llmsnap loading model: " ++ id) (
    send_line rule_line (
      write_header 200 (record {
        has_written = false;
        status_codes = [];
        sent = [];
        accepts = accepts;
        panicked = false;
      })))

-- A second of the ticker before the context is done: the time, and whether the process is ready.
pub record StatusTick : Type 0 where
  pub at : ℕ
  pub is_ready : Bool

unfoldable pub remark_at : List Text → ℕ → Text
remark_at remarks i = get_or remarks (i % length remarks) []

-- The deferred lines, which a panic of theirs ends.
unfoldable pub say_done : Text → StatusWriter → StatusWriter
say_done duration s =
    send_line (codes " ")
      (send_line rule_line (send_line ((10 ∷ []) ++ codes "Done! (" ++ duration ++ codes "s)") s))

module _ (remarks : List Text) (pause : ℕ → ℕ) where
  -- The loop of `statusUpdates` over the ticks: `remarks` is the shuffled copy, and `pause i` the random
  -- time that passes before remark number `i`. After a panic it sends no more.
  unfoldable pub status_loop : ℕ → ℕ → List StatusTick → StatusWriter → StatusWriter
  status_loop i last_remark [] s = s
  status_loop i last_remark (tick ∷ ticks) s =
      let with_remark =
        status_loop (suc i) tick.at ticks (send_line ((10 ∷ []) ++ remark_at remarks i) s) in
      let with_dot = status_loop i last_remark ticks (send_data (codes ".") s) in
      if tick.is_ready
      then s
      else if leb (pause i) (tick.at - last_remark)
      then with_remark
      else with_dot

  -- `statusUpdates`, begun at `start`; the deferred function recovers from a panic of this goroutine.
  -- Where the writer panicked before, the request's goroutine has not come so far as to start it.
  unfoldable pub status_updates : ℕ → Text → List StatusTick → StatusWriter → StatusWriter
  status_updates start duration ticks s =
      if s.panicked
      then s
      else record (say_done duration (status_loop 0 start ticks s)) { panicked = false }
