-- ===== src/Fingerprint/Resource.antt =====
-- The hierarchy of the attributes of a resource (utils/fingerprint/fingerprint.go:
-- ResourceHierarchy), with the subtrees of its two views named.
use Prim.Native.String.{String}
use mathlib.Core.List.{List, [], ◌∷◌}
use otel_collector.Fingerprint.{DimensionHierarchyNode, node, no_more, more}

-- A node with one subhierarchy.
abbrev under : List String → DimensionHierarchyNode → DimensionHierarchyNode
under labels below = node labels (more below no_more)

-- The view by service.
abbrev pub service_view : DimensionHierarchyNode
service_view = under ("service.namespace" ∷ "k8s.namespace.name" ∷ "ec2.tag.service-group" ∷ []) (
    under
      ("service.name" ∷ "cloudwatch.log.group.name" ∷ "k8s.deployment.name" ∷ "k8s.deployment.uid"
        ∷ "k8s.statefulset.name" ∷ "k8s.statefulset.uid" ∷ "k8s.daemonset.name"
        ∷ "k8s.daemonset.uid" ∷ "k8s.job.name" ∷ "k8s.job.uid" ∷ "k8s.cronjob.name"
        ∷ "k8s.cronjob.uid" ∷ "faas.name" ∷ "ec2.tag.service" ∷ [])
      (under ("deployment.environment" ∷ "ec2.tag.env-short" ∷ "ec2.tag.env" ∷ "env" ∷ []) (
        under
          ("service.instance.id" ∷ "k8s.pod.name" ∷ "k8s.pod.uid" ∷ "aws.ecs.task.id"
            ∷ "aws.ecs.task.arn" ∷ "cloudwatch.log.stream" ∷ "cloud.resource_id" ∷ "faas.instance"
            ∷ "host.id" ∷ "host.name" ∷ "host.ip" ∷ "host" ∷ [])
          (under ("k8s.container.name" ∷ "container.name" ∷ "container_name" ∷ [])
            (node ("component" ∷ []) no_more)))))

-- The view by node.
abbrev pub node_view : DimensionHierarchyNode
node_view = under ("cloud.availability_zone" ∷ []) (
    under ("k8s.node.name" ∷ "k8s.node.uid" ∷ "host.id" ∷ "host.name" ∷ "host.ip" ∷ "host" ∷ []) (
      under ("k8s.pod.name" ∷ "k8s.pod.uid" ∷ "aws.ecs.task.id" ∷ "aws.ecs.task.arn" ∷ [])
        (node ("k8s.container.name" ∷ "container.name" ∷ []) no_more)))

abbrev pub resource_hierarchy : DimensionHierarchyNode
resource_hierarchy = under ("cloud.provider" ∷ []) (
    under ("cloud.account.id" ∷ []) (
      under ("gcp.project" ∷ []) (
        under ("cloud.region" ∷ "aws.region" ∷ []) (
          under ("cloud.platform" ∷ "source_type" ∷ []) (
            node ("k8s.cluster.name" ∷ "k8s.cluster.uid" ∷ "aws.ecs.cluster.arn" ∷ [])
              (more service_view (more node_view no_more)))))))
