-- ===== src/Fingerprint/Tests.antt =====
-- Runs on the hierarchy of a resource (utils/fingerprint/fingerprint_test.go has the like).
use Prim.Native.String.{String}
use mathlib.Core.Bool.{true}
use mathlib.Core.List.{List, [], ◌∷◌}
use mathlib.Core.Path.{◌≡◌, refl}
use otel_collector.Common.Tests.{comparable_string}
use otel_collector.Fingerprint.{value_of, first_label, identifier, contains, synonyms}
use otel_collector.Fingerprint.Found.{first_pairs, labels_of, identifier-first_pairs}
use otel_collector.Fingerprint.Resource.{resource_hierarchy}

-- A pod of a service, with an attribute that no node names.
abbrev pod : List (String × String)
pod =
    ("k8s.pod.name", "web-0")
    ∷ ("team", "x")
    ∷ ("service.name", "web")
    ∷ ("host.name", "node-1")
    ∷ []

-- The service view wins, and within a node the first label does.
pod_found :
    identifier pod resource_hierarchy ≡ ("service.name", "web") ∷ ("k8s.pod.name", "web-0") ∷ []
unfolding identifier first_label value_of
pod_found = refl

host_synonyms : contains (synonyms "host" resource_hierarchy) "service.instance.id" ≡ true
unfolding synonyms contains
host_synonyms = refl

-- The service view has a label of the pod, so no other view counts.
identifier-first_pairs_example :
    identifier pod resource_hierarchy ≡ ("service.name", "web") ∷ ("k8s.pod.name", "web-0") ∷ []
unfolding first_pairs labels_of value_of
identifier-first_pairs_example = identifier-first_pairs pod resource_hierarchy
