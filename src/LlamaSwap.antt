-- ===== src/LlamaSwap.antt =====
-- llama-swap.go: the main program. Loading the configuration, watching files and sockets are arguments
-- or steps.
pub mod Debounce
mod Tests
use llmsnap.ProxyManager.New.{new_proxy_manager}
use llmsnap.ProxyManager.Calls.{ManagerCall, manage}
use llmsnap.Config.{Config, ModelConfig}
use llmsnap.ProxyManager.{ProxyManager, shut_down_all}
use llmsnap.ProcessGroup.{ProcessApi}
use llmsnap.Prelude.{
  ◌∙◌, ◌⊎◌, ◌≡◌, sym, inr, inl, refl, false, true, Bool, Option, Text, ℕ, if◌then◌else◌, not,
  text_eq, List, [], some, ◌&&◌, codes, none, ◌||◌, ◌∷◌,
}

pub record Flags : Type 0 where
  pub listen : Text
  pub cert_file : Text
  pub key_file : Text
  pub show_version : Bool

-- How the program starts: it ends with a code, or listens on an address, with TLS or without.
pub data Startup : Type 0 where
  ends_with : ℕ → Startup
  listens : Text → Bool → Startup

unfoldable pub listen_address : Text → Bool → Text
listen_address listen use_tls =
    if text_eq listen [] then (if use_tls then codes ":8443" else codes ":8080") else listen

-- `config_loads` is whether the configuration can be loaded at first, `reloads` whether it can be again
-- for the first manager.
unfoldable pub startup : Flags → Bool → Bool → Startup
startup flags config_loads reloads =
    let has_cert = not (text_eq flags.cert_file []) in
    let has_key' = not (text_eq flags.key_file []) in
    if flags.show_version
    then ends_with 0
    else if not config_loads
    then ends_with 1
    else if (has_cert && not has_key') || (not has_cert && has_key')
    then ends_with 1
    else if not reloads
    then ends_with 1
    else listens (listen_address flags.listen (has_cert && has_key')) (has_cert && has_key')

-- What the file watcher reports.
pub record FileEvent : Type 0 where
  pub name : Text
  pub is_write : Bool
  pub is_create : Bool
  pub is_remove : Bool

-- Whether it stands for a change of the configuration; `data_path` is "..data" in its directory.
unfoldable pub is_config_change : Text → Text → FileEvent → Bool
is_config_change config_path data_path e =
    (text_eq e.name config_path && (e.is_write || e.is_create || e.is_remove))
    || (text_eq e.name data_path && e.is_create)

-- The server's handler, the managers that it had before, newest first, and the code the program has
-- ended with.
pub record Server (P : Type 0) : Type 0 where
  pub handler : Option (ProxyManager P)
  pub retired : List (ProxyManager P)
  pub exit_code : Option ℕ

-- `serves` is a call of the current handler. A call that is under way in a manager that was replaced, and
-- the preloading that its `New` began, are not among the steps.
pub data ServerStep : Type 0 where
  reloads : Option Config → ServerStep
  serves : ManagerCall → ServerStep
  signals : ServerStep

module _ {P : Type 0} (api : ProcessApi P) (make : Text → ModelConfig → P) where
  -- `proxy.New` for the handler; its panic ends the program.
  unfoldable pub install : Option (ProxyManager P) → Server P → Server P
  install none s = record s { exit_code = some 2 }
  install (some pm) s = record s { handler = some pm }

  -- `reloadProxyManager`, with the configuration that was loaded.
  unfoldable pub reload_proxy_manager :
      Option Config → Option (ProxyManager P) → Server P → Server P
  reload_proxy_manager none (some current) s = s
  reload_proxy_manager none none s = record s { exit_code = some 1 }
  reload_proxy_manager (some config) (some current) s =
      install (new_proxy_manager make config)
        (record s { retired = shut_down_all api current ∷ s.retired })
  reload_proxy_manager (some config) none s = install (new_proxy_manager make config) s

  unfoldable pub serve_call : ManagerCall → Option (ProxyManager P) → Server P → Server P
  serve_call c none s = s
  serve_call c (some current) s = record s { handler = some (manage api c current) }

  -- The shutdown on a signal.
  unfoldable pub end_server : Option (ProxyManager P) → Server P → Server P
  end_server none s = record s { exit_code = some 0 }
  end_server (some current) s = record s {
    handler = some (shut_down_all api current);
    exit_code = some 0;
  }

  unfoldable pub server_step : ServerStep → Server P → Server P
  server_step (reloads loaded) s = reload_proxy_manager loaded s.handler s
  server_step (serves c) s = serve_call c s.handler s
  server_step signals s = end_server s.handler s

  -- The steps until the program has ended.
  unfoldable pub run_server : List ServerStep → Server P → Server P
  run_server [] s = s
  run_server (step ∷ steps) s = elim s.exit_code [
    | none ↦ run_server steps (server_step step s)
    | some code ↦ s
  ]
