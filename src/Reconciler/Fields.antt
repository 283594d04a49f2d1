-- ===== src/Reconciler/Fields.antt =====
-- The struct fields that the handlers take over from a manifest.
use qubership_monitoring_ope.Prelude.{List, [], ◌∷◌}
use qubership_monitoring_ope.Cluster.{FieldPath}

abbrev pub rules : FieldPath
rules = "Rules" ∷ []

abbrev pub spec : FieldPath
spec = "Spec" ∷ []

abbrev pub spec_rules : FieldPath
spec_rules = "Spec" ∷ "Rules" ∷ []

abbrev pub spec_tls : FieldPath
spec_tls = "Spec" ∷ "TLS" ∷ []

abbrev pub spec_ports : FieldPath
spec_ports = "Spec" ∷ "Ports" ∷ []

abbrev pub spec_selector : FieldPath
spec_selector = "Spec" ∷ "Selector" ∷ []

abbrev pub spec_replicas : FieldPath
spec_replicas = "Spec" ∷ "Replicas" ∷ []

abbrev pub spec_job_label : FieldPath
spec_job_label = "Spec" ∷ "JobLabel" ∷ []

abbrev pub spec_endpoints : FieldPath
spec_endpoints = "Spec" ∷ "Endpoints" ∷ []

abbrev pub spec_pod_metrics_endpoints : FieldPath
spec_pod_metrics_endpoints = "Spec" ∷ "PodMetricsEndpoints" ∷ []

abbrev pub spec_namespace_selector : FieldPath
spec_namespace_selector = "Spec" ∷ "NamespaceSelector" ∷ []

abbrev pub pod_volumes : FieldPath
pod_volumes = "Spec" ∷ "Template" ∷ "Spec" ∷ "Volumes" ∷ []

abbrev pub pod_tolerations : FieldPath
pod_tolerations = "Spec" ∷ "Template" ∷ "Spec" ∷ "Tolerations" ∷ []

abbrev pub subsets : FieldPath
subsets = "Subsets" ∷ []

abbrev pub template_labels : FieldPath
template_labels = "Spec" ∷ "Template" ∷ "ObjectMeta" ∷ "Labels" ∷ []

abbrev pub template_annotations : FieldPath
template_annotations = "Spec" ∷ "Template" ∷ "ObjectMeta" ∷ "Annotations" ∷ []

abbrev pub pod_spec : FieldPath
pod_spec = "Spec" ∷ "Template" ∷ "Spec" ∷ []

abbrev pub pod_security_context : FieldPath
pod_security_context = "Spec" ∷ "Template" ∷ "Spec" ∷ "SecurityContext" ∷ []

abbrev pub pod_containers : FieldPath
pod_containers = "Spec" ∷ "Template" ∷ "Spec" ∷ "Containers" ∷ []

abbrev pub pod_service_account_name : FieldPath
pod_service_account_name = "Spec" ∷ "Template" ∷ "Spec" ∷ "ServiceAccountName" ∷ []

abbrev pub pod_node_selector : FieldPath
pod_node_selector = "Spec" ∷ "Template" ∷ "Spec" ∷ "NodeSelector" ∷ []

abbrev pub pod_affinity : FieldPath
pod_affinity = "Spec" ∷ "Template" ∷ "Spec" ∷ "Affinity" ∷ []

abbrev pub pod_priority_class_name : FieldPath
pod_priority_class_name = "Spec" ∷ "Template" ∷ "Spec" ∷ "PriorityClassName" ∷ []

-- The field lists of the handlers of one kind, which are the same in all components.
abbrev pub ingress_fields : List FieldPath
ingress_fields = spec_rules ∷ spec_tls ∷ []

abbrev pub service_fields : List FieldPath
service_fields = spec_ports ∷ spec_selector ∷ []

abbrev pub service_monitor_fields : List FieldPath
service_monitor_fields =
    spec_job_label ∷ spec_endpoints ∷ spec_namespace_selector ∷ spec_selector ∷ []

abbrev pub pod_monitor_fields : List FieldPath
pod_monitor_fields =
    spec_job_label ∷ spec_pod_metrics_endpoints ∷ spec_namespace_selector ∷ spec_selector ∷ []
