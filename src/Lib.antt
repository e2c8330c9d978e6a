-- ===== src/Lib.antt =====
-- llmsnap, a proxy that starts, swaps, puts to sleep and stops model servers on demand: models of its
-- parts and theorems about them.
--
-- Parts, each with the files that model it:
-- - Process (proxy/process.go): one upstream process. Process.antt has the state and the critical
--   sections (swapState, forceState, waitForCmd); Process/Schedule the monad in which a method is a
--   chain of critical sections with any steps of other goroutines (`Action`) before each; Process/Stop,
--   Start, Sleep and Request the methods; Process/Outside the requests to the upstream and its stop
--   command; Process/Loading the lines streamed while it loads. A wait (WaitGroup.Wait,
--   a receive) lets the others run until its condition holds; `blocked` means that they are at rest and
--   it does not hold.
-- - ProcessGroup (proxy/processgroup.go): the processes of one group, over an interface of a process.
--   Each operation is taken as one step: calls of a group come in turn. The source holds the group's lock
--   in a part of them only (not while the last used model is served, in a group that does not swap, or
--   while processes stop or sleep). ProcessGroup/New has NewProcessGroup, and ProcessGroup/OfProcesses
--   the interface filled by the model of Process.
-- - ProxyManager (proxy/proxymanager.go, proxy/proxymanager_api.go): the groups behind one server.
--   ProxyManager.antt has swapProcessGroup, StopProcesses and Shutdown; Requests and Handlers the handlers
--   that hand a request to a group or a peer, and the preloading; Paths findModelInPath; Keys apiKeyAuth;
--   Api unloading, sleeping and the lists. Each is taken as one step. ProxyManager/New has New, whose
--   goroutine that preloads is left to later calls, Routes the table of routes and what stands before a
--   handler, Streams the logs and the events (proxy/proxymanager_loghandlers.go), CaptureApi a capture by
--   its number.
-- - LlamaSwap (llama-swap.go): the main program: its start, reloading, the signal and debounce.
-- - PeerProxy (proxy/peerproxy.go): the models that other servers have.
-- - Config (proxy/config): Config.antt has the data and RealModelName; Macros, Unknown, Models and Load
--   the loading (LoadConfigFromReader) after the YAML decoder; Env the environment's variables; Groups the
--   default group and the check of members; Commands StripComments and SanitizeCommand; Endpoints,
--   Decoded and Parameters what the YAML hooks and proxy/config/filters.go add.
-- - CircularBuffer (proxy/logMonitor.go): the ring buffer of a log.
-- - LogMonitor (proxy/logMonitor.go): a log monitor over that buffer, which it makes when needed.
-- - MetricsMonitor (proxy/metrics_monitor.go): token metrics and captures. MetricsMonitor/Wrap has
--   wrapHandler for one request, MetricsMonitor/Headers redactHeaders, MetricsMonitor/Stream the counts
--   in a response.
-- - SanitizeCors (proxy/sanitize_cors.go): the header values sent back to a browser.
-- - UiCompress (proxy/ui_compress.go): the choice of an encoding and of the file that is sent.
-- - WolProxy (cmd/wol-proxy/wol-proxy.go): a proxy that wakes its upstream.
-- - Prelude: tests, lists, texts, maps, results and integers over the native numbers.
--
-- A request is checked by the ProxyManager for a key, routed by its model's name (Config) to a
-- ProcessGroup or to a PeerProxy, and from the group to a Process, which starts or wakes itself on
-- demand; the response passes the MetricsMonitor; what the upstream prints goes to a CircularBuffer.
--
-- Bounds and fuel: the health check loop of `start` runs on fuel (`Launch.fuel`), and `exhausted` is its
-- end. Fuel for as many turns as the clock needs to pass the configured limit is enough. The digits of
-- a number run on fuel 20, as an `int` has 19 at most. Every other loop is structural. The clock, the
-- operating system, the replies of the upstream and the other goroutines are inputs. Go's maps are
-- association lists, and a loop over one takes them in the order of the list. Counters are natural
-- numbers; a counter that would go below zero panics in Go (WaitGroup) and sets `panicked`.
--
-- Not modelled: the YAML decoder, the packages for JSON, URLs and shell words and how gin finds a route
-- (arguments where their results are used), the event dispatcher (another project's library: what is
-- emitted is logged, and what a subscriber does is a step), sockets and files, the programs under cmd
-- that test or measure a server, and the attributes of a process on each system.
pub mod CircularBuffer
pub mod Config
pub mod LlamaSwap
pub mod LogMonitor
pub mod MetricsMonitor
pub mod PeerProxy
pub mod Prelude
pub mod Process
pub mod ProcessGroup
pub mod ProxyManager
pub mod SanitizeCors
pub mod UiCompress
pub mod WolProxy
