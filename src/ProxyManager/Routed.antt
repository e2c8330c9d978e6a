-- ===== src/ProxyManager/Routed.antt =====
-- proxy/proxymanager.go: where a request ends up, and what the other groups become.
use llmsnap.ProxyManager.Exclusive.{swap_process_group_lem}
use llmsnap.Config.{real_model_name}
use llmsnap.PeerProxy.{KeyHeaders}
use llmsnap.Process.Request.{Request}
use llmsnap.ProxyManager.Handlers.{
  proxy_inference_handler, run_local, run_swapped, run_body, inference_by, run_group,
}
use llmsnap.ProxyManager.Requests.{
  route, route_peer, Answer, Json, answer_of, local_body, failed, peer_has,
}
use llmsnap.ProxyManager.{ProxyManager, set_group, find_group_by_model_name, swap_process_group}
use llmsnap.ProcessGroup.{
  ProcessApi, ProcessGroup, group_request, make_idle_processes, has_member, Proxied,
}
use mathlib.Core.Path.{subst}
use llmsnap.Prelude.{
  sym, false, true, some, ◌∷◌, [], find, put, Text, List, text_eq, ◌≡◌, arith, text_eq_comm,
  text_eq_refl, if◌then◌else◌, text_eq_sound, ap, ◌&&◌, not, ◌∙◌,
}

find-put_self :
    {A : Type 0} → (k : Text) (v : A) (es : List (Text × A)) → find k (put k v es) ≡ some v
unfolding find put
find-put_self k v [] = ground (arith, text_eq_refl k)
find-put_self k v ((l, w) ∷ es) = ground (arith, text_eq_refl k, find-put_self k v es)

find-put_ne :
    {A : Type 0}
    → (k l : Text) (v : A) (es : List (Text × A)) → text_eq k l ≡ false
    → find k (put l v es) ≡ find k es
unfolding find put
find-put_ne k l v [] h = ground (arith, h, text_eq_comm k l)
find-put_ne k l v ((m, w) ∷ es) h = ground (
  arith,
  h,
  text_eq_comm k l,
  text_eq_sound m l,
  ap (λ t. text_eq t k) {x = m} {y = l},
  find-put_ne k l v es h,
)

module _ {P : Type 0} (api : ProcessApi P) where
  -- What is left after a request that a group took.
  abbrev pub Served :
      {B : Type 0}
      → ProxyManager P
      → Text
      → Text
      → ProcessGroup P
      → B
      → Request
      → Answer B × ProxyManager P
      → Type 0
  Served pm name id target sent r done =
      let took = group_request api name r target in
      (done.0 ≡ answer_of id name sent took.0) × (find id done.1.process_groups ≡ some took.1)

  -- A request for a model that has a group is taken by the first group that lists it, as `ProxyRequest`
  -- of that group says. Every other group is left as it was, or has its processes made idle where the
  -- first is exclusive and the other is not persistent.
  pub run_local_lem :
      {B : Type 0}
      → (pm : ProxyManager P) (name id k : Text) (target group : ProcessGroup P) (sent : B)
        (r : B → Request)
      → find_group_by_model_name name pm.process_groups ≡ some (id, target)
      → find k pm.process_groups ≡ some group
      → text_eq k id ≡ false
      → Served pm name id target sent (r sent) (run_local api name (some sent) r pm)
        × (find k (run_local api name (some sent) r pm).1.process_groups
            ≡ some (
                if target.exclusive && not group.persistent
                then make_idle_processes api group
                else group))
  unfolding run_local run_swapped run_body run_group set_group
  run_local_lem {B = B} pm name id k target group sent r h found ne = (
    (
      ap (λ x. x.0) is,
      ap (λ x. find id x.1.process_groups) is ∙ find-put_self id took.1 after.process_groups,
    ),
    ap (λ x. find k x.1.process_groups) is
        ∙ find-put_ne k id took.1 after.process_groups ne
        ∙ swapped.2
        ∙ ap
            (λ b. some (
              if target.exclusive && (not b && not group.persistent)
              then make_idle_processes api group
              else group))
            ne,
  )
    where
      after : ProxyManager P
      after = (swap_process_group api name pm).1

      swapped :
          (has_member name target ≡ true)
          × ((swap_process_group api name pm).0 ≡ some (id, target))
          × (find k after.process_groups
              ≡ some (
                  if target.exclusive && (not (text_eq k id) && not group.persistent)
                  then make_idle_processes api group
                  else group))
      swapped = swap_process_group_lem api pm name id k target group h found

      took : Proxied × ProcessGroup P
      took = group_request api name (r sent) target

      is :
          run_local api name (some sent) r pm
          ≡ (answer_of id name sent took.0, set_group id took.1 after)
      is = ap (λ x. run_swapped api name (some sent) r (x, after)) swapped.1

  -- A model is local, has a group, and its edited body is there: the inference handler is that request.
  pub proxy_inference_handler-local :
      (json : Json) (headers : KeyHeaders) (r : Request) (body : Text) (pm : ProxyManager P)
      (name sent : Text)
      → text_eq (json.model_of body) [] ≡ false
      → real_model_name pm.config (json.model_of body) ≡ some name
      → local_body json (find name pm.config.models) body ≡ some sent
      → proxy_inference_handler api json headers r (some body) pm
        ≡ run_local api name (some sent) (λ b. record r { streaming = json.stream_of b }) pm
  unfolding proxy_inference_handler route route_peer inference_by
  proxy_inference_handler-local json headers r body pm name sent some_name real edited =
      ap
        (λ b.
          if b
          then (failed 400, pm)
          else inference_by api json (route (json.model_of body) pm) headers r body pm)
        some_name
      ∙ ap
          (λ x.
            inference_by api json
              (route_peer x (peer_has pm.peer_proxy (json.model_of body)) (json.model_of body))
              headers r body pm)
          real
      ∙ ap (λ x. run_local api name x (λ b. record r { streaming = json.stream_of b }) pm) edited

  -- A request with a model's name that stands for a model with a group, whose body can be edited, is taken
  -- by the first group that lists the model, as `ProxyRequest` of that group says. Every other group is
  -- left as it was, or has its processes made idle where the first is exclusive and the other is not
  -- persistent.
  pub proxy_inference_handler_lem :
      (json : Json) (headers : KeyHeaders) (r : Request) (body : Text) (pm : ProxyManager P)
      (name sent id k : Text) (target group : ProcessGroup P)
      → text_eq (json.model_of body) [] ≡ false
      → real_model_name pm.config (json.model_of body) ≡ some name
      → local_body json (find name pm.config.models) body ≡ some sent
      → find_group_by_model_name name pm.process_groups ≡ some (id, target)
      → find k pm.process_groups ≡ some group
      → text_eq k id ≡ false
      → let done = proxy_inference_handler api json headers r (some body) pm in
        Served pm name id target sent (record r { streaming = json.stream_of sent }) done
        × (find k done.1.process_groups
            ≡ some (
                if target.exclusive && not group.persistent
                then make_idle_processes api group
                else group))
  proxy_inference_handler_lem json headers r body pm name sent id k target group some_name real
        edited h found ne =
      subst
        (λ done.
          Served pm name id target sent (record r { streaming = json.stream_of sent }) done
          × (find k done.1.process_groups
              ≡ some (
                  if target.exclusive && not group.persistent
                  then make_idle_processes api group
                  else group)))
        (sym (proxy_inference_handler-local json headers r body pm name sent some_name real edited))
        (run_local_lem pm name id k target group sent
          (λ b. record r { streaming = json.stream_of b }) h found ne)
