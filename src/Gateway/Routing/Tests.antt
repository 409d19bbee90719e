-- ===== src/Gateway/Routing/Tests.antt =====
-- Tests and examples of the routing table.
use openserve.Prelude.{
  Bytes, codes, ◌≡◌, refl, List, [], ◌∷◌, Option, none, some, true, false, lookup, bytes_eq,
}
use openserve.Prelude.Hash.{fnv32a, format_hex}
use openserve.Gateway.Routing.{
  RouteConfig, FileRouter, address, deployment_not_found, WatchEvent, file_event, watch_error,
  done_closed, resolve, pick_pod, prefix_resolve, reload, new_file_router, watch_file,
}
use openserve.Gateway.Routing.Laws.{
  Resolves, prefix_resolve-Resolves, last_good, with_config, watch_file-last_good,
}

abbrev two_pods : FileRouter
two_pods = record {
  routes = (codes "llama", codes "vllm-llama:8000") ∷ (codes "qwen", codes "vllm-qwen:8000") ∷ [];
  pod_routes = (codes "llama", codes "10.0.0.1:8000" ∷ codes "10.0.0.2:8000" ∷ []) ∷ [];
  closed = false;
}

-- The published FNV-1a value of "foobar".
fnv32a_foobar : format_hex (fnv32a (codes "foobar")) ≡ codes "bf9cf968"
unfolding format_hex fnv32a
fnv32a_foobar = refl

resolve_tests :
    (prefix_resolve two_pods (codes "llama") (codes "a") ≡ address (codes "10.0.0.1:8000"))
    × (prefix_resolve two_pods (codes "llama") (codes "b") ≡ address (codes "10.0.0.2:8000"))
    × (prefix_resolve two_pods (codes "qwen") (codes "a") ≡ address (codes "vllm-qwen:8000"))
    × (prefix_resolve two_pods (codes "none") (codes "a") ≡ deployment_not_found)
unfolding prefix_resolve resolve pick_pod lookup bytes_eq fnv32a
resolve_tests = (refl, refl, refl, refl)

prefix_resolve-Resolves_example :
    Resolves two_pods (codes "llama") (prefix_resolve two_pods (codes "llama") (codes "a"))
prefix_resolve-Resolves_example = prefix_resolve-Resolves two_pods (codes "llama") (codes "a")

-- A parser that knows one file.
abbrev parse_one : Bytes → Option RouteConfig
parse_one [] = none
parse_one (c ∷ s) = some (record { routes = (codes "m", c ∷ s) ∷ []; pod_routes = [] })

abbrev seen : List WatchEvent
seen =
    file_event true false (some (codes "v1"))
    ∷ file_event false false (some (codes "v2"))
    ∷ file_event true false (some [])
    ∷ watch_error
    ∷ done_closed
    ∷ []

watch_file-last_good_example :
    watch_file parse_one seen two_pods ≡ with_config two_pods (last_good parse_one seen)
watch_file-last_good_example = watch_file-last_good parse_one seen two_pods

watch_file_keeps_v1 :
    resolve (watch_file parse_one seen two_pods) (codes "m") ≡ address (codes "v1")
unfolding watch_file reload resolve lookup bytes_eq
watch_file_keeps_v1 = refl

no_file : new_file_router parse_one none ≡ none
unfolding new_file_router reload
no_file = refl
