-- ===== src/Operator/Resources/Deploy.antt =====
-- The deployments (integrity-shield-operator/resources/deploy.go).
use integrity_shield.Base.{ℕ, Str, Bool, bytes, true, false, [], ◌∷◌, List, none, some}
use integrity_shield.Operator.Objects.{Labels}
use integrity_shield.Operator.Pods.{
  Volume, VolumeMount, ContainerPort, EnvVar, Probe, Container, Deployment, secret_source,
  empty_dir, http_get, exec,
}
use integrity_shield.Operator.Types.{IntegrityShield}

unfoldable pub secret_volume : Str → Str → Volume
secret_volume name secret_name = record { name = name; source = secret_source secret_name 420 }

unfoldable pub empty_dir_volume : Str → Volume
empty_dir_volume name = record { name = name; source = empty_dir }

abbrev pub env_var : Str → Str → EnvVar
env_var name value = record { name = name; value = value; value_from = none }

abbrev pub protocol_tcp : Str
protocol_tcp = bytes "TCP"

abbrev pub health_probe : Str → Probe
health_probe path = record {
  initial_delay_seconds = 10;
  period_seconds = 10;
  handler = http_get path 8080 (bytes "HTTPS");
}

abbrev pub ls_probe : Probe
ls_probe = record {
  initial_delay_seconds = 0;
  period_seconds = 0;
  handler = exec (bytes "ls" ∷ []);
}

abbrev pub mount : Str → Str → Bool → VolumeMount
mount mount_path name read_only = record {
  mount_path = mount_path;
  name = name;
  read_only = read_only;
  sub_path = [];
  sub_path_expr = [];
  mount_propagation = none;
}

abbrev pub tcp_port : Str → ℕ → ContainerPort
tcp_port name port = record {
  name = name;
  container_port = port;
  protocol = protocol_tcp;
  host_port = 0;
  host_ip = [];
}

abbrev pub tls_mount : Str → VolumeMount
tls_mount volume = mount (bytes "/run/secrets/tls") volume true

abbrev pub tmp_mount : VolumeMount
tmp_mount = mount (bytes "/tmp") (bytes "tmp") false

abbrev pub request_handler_env : IntegrityShield → List EnvVar → List EnvVar
request_handler_env cr rest =
    env_var (bytes "REQUEST_HANDLER_CONFIG_KEY") cr.spec.request_handler_config_key
    ∷ env_var (bytes "REQUEST_HANDLER_CONFIG_NAME") cr.spec.request_handler_config_name
    ∷ rest

-- The part of a deployment in which the three below do not differ.
abbrev pub deployment_of :
    IntegrityShield → Str → Labels → Str → Container → List Volume → Deployment
deployment_of cr name selector_labels account container volumes = record {
  meta = record {
    name = name;
    namespace = cr.namespace;
    labels = cr.spec.meta_labels;
    annotations = none;
    owner_references = [];
  };
  spec = record {
    max_surge = cr.spec.max_surge;
    max_unavailable = cr.spec.max_unavailable;
    replicas = cr.spec.replica_count;
    selector = selector_labels;
    template = record {
      labels = selector_labels;
      annotations = none;
      spec = record {
        service_account_name = account;
        security_context = cr.spec.security.pod_security_context;
        containers = container ∷ [];
        node_selector = cr.spec.node_selector;
        affinity = cr.spec.affinity;
        tolerations = cr.spec.tolerations;
        volumes = volumes;
      };
    };
  };
  available_replicas = 0;
}

unfoldable pub build_deployment_for_ishield_server : IntegrityShield → Deployment
unfolding secret_volume empty_dir_volume
build_deployment_for_ishield_server cr =
    deployment_of cr cr.spec.server.name cr.spec.server.selector_labels
      cr.spec.security.server_service_account_name
      (record {
        name = cr.spec.server.name;
        command = [];
        args = none;
        security_context = cr.spec.server.security_context;
        image = cr.spec.server.image;
        image_pull_policy = cr.spec.server.image_pull_policy;
        readiness_probe = some (health_probe (bytes "/health/readiness"));
        liveness_probe = some (health_probe (bytes "/health/liveness"));
        ports = some (tcp_port (bytes "ishield-api") cr.spec.server.port ∷ []);
        volume_mounts = some (tls_mount (bytes "ishield-api-certs") ∷ tmp_mount ∷ []);
        env = some (env_var (bytes "POD_NAMESPACE") cr.namespace ∷ request_handler_env cr []);
        resources = cr.spec.server.resources;
      })
      (secret_volume (bytes "ishield-api-certs") cr.spec.server_tls_secret_name
        ∷ empty_dir_volume (bytes "tmp")
        ∷ [])

unfoldable pub build_deployment_for_admission_controller : IntegrityShield → Deployment
unfolding secret_volume empty_dir_volume
build_deployment_for_admission_controller cr =
    deployment_of cr cr.spec.controller_container.name cr.spec.controller_container.selector_labels
      cr.spec.security.server_service_account_name
      (record {
        name = cr.spec.controller_container.name;
        command = bytes "/myapp/k8s-manifest-sigstore" ∷ [];
        args = none;
        security_context = cr.spec.controller_container.security_context;
        image = cr.spec.controller_container.image;
        image_pull_policy = cr.spec.controller_container.image_pull_policy;
        readiness_probe = some ls_probe;
        liveness_probe = some ls_probe;
        ports = some (tcp_port (bytes "validator-port") cr.spec.controller_container.port ∷ []);
        volume_mounts = some (tls_mount (bytes "webhook-tls") ∷ tmp_mount ∷ []);
        env = some (
            env_var (bytes "POD_NAMESPACE") cr.namespace
            ∷ env_var (bytes "LOG_LEVEL") cr.spec.controller_container.log.log_level
            ∷ env_var (bytes "LOG_FORMAT") cr.spec.controller_container.log.log_format
            ∷ env_var (bytes "CONTROLLER_CONFIG_KEY") cr.spec.admission_controller_config_key
            ∷ env_var (bytes "CONTROLLER_CONFIG_NAME") cr.spec.admission_controller_config_name
            ∷ request_handler_env cr []);
        resources = cr.spec.controller_container.resources;
      })
      (secret_volume (bytes "webhook-tls") cr.spec.webhook_server_tls_secret_name
        ∷ empty_dir_volume (bytes "tmp")
        ∷ [])

unfoldable pub build_deployment_for_observer : IntegrityShield → Deployment
unfolding empty_dir_volume
build_deployment_for_observer cr =
    deployment_of cr cr.spec.observer.name cr.spec.observer.selector_labels
      cr.spec.security.observer_service_account_name
      (record {
        name = cr.spec.observer.name;
        command = [];
        args = none;
        security_context = cr.spec.observer.security_context;
        image = cr.spec.observer.image;
        image_pull_policy = cr.spec.observer.image_pull_policy;
        readiness_probe = none;
        liveness_probe = none;
        ports = none;
        volume_mounts = some (tmp_mount ∷ []);
        env = some (
            env_var (bytes "POD_NAMESPACE") cr.namespace
            ∷ env_var (bytes "LOG_LEVEL") cr.spec.observer.log_level
            ∷ request_handler_env cr (
                env_var (bytes "OBSERVER_CONFIG_NAME") cr.spec.observer.observer_config_name
                ∷ env_var (bytes "OBSERVER_CONFIG_KEY") cr.spec.observer.observer_config_key
                ∷ env_var (bytes "INTERVAL") cr.spec.observer.interval
                ∷ []));
        resources = cr.spec.controller_container.resources;
      })
      (empty_dir_volume (bytes "tmp") ∷ [])
