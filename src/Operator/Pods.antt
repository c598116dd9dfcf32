-- ===== src/Operator/Pods.antt =====
-- Deployments and the pods that they ask for, as integrity-shield-operator/resources/deploy.go sets
-- and reads them, with all fields of what `reflect.DeepEqual` compares whole.
use integrity_shield.Base.{ℕ, Str, Bool, List, Option}
use integrity_shield.Operator.Objects.{Labels, Raw, ObjectMeta}

pub data Source : Type 0 where
  -- the name of the secret, and the mode of its files
  secret_source : Str → ℕ → Source
  empty_dir : Source

pub record Volume : Type 0 where
  pub name : Str
  pub source : Source

pub record VolumeMount : Type 0 where
  pub mount_path : Str
  pub name : Str
  pub read_only : Bool
  pub sub_path : Str
  pub sub_path_expr : Str
  pub mount_propagation : Option Str

pub record ContainerPort : Type 0 where
  pub name : Str
  pub container_port : ℕ
  pub protocol : Str
  pub host_port : ℕ
  pub host_ip : Str

pub record EnvVar : Type 0 where
  pub name : Str
  pub value : Str
  pub value_from : Option Raw

pub data Handler : Type 0 where
  -- the path, the port and the scheme
  http_get : Str → ℕ → Str → Handler
  exec : List Str → Handler

pub record Probe : Type 0 where
  pub initial_delay_seconds : ℕ
  pub period_seconds : ℕ
  pub handler : Handler

pub record Container : Type 0 where
  pub name : Str
  pub command : List Str
  pub args : Option (List Str)
  pub security_context : Option Raw
  pub image : Str
  pub image_pull_policy : Str
  pub readiness_probe : Option Probe
  pub liveness_probe : Option Probe
  pub ports : Option (List ContainerPort)
  pub volume_mounts : Option (List VolumeMount)
  pub env : Option (List EnvVar)
  pub resources : Raw

pub record PodSpec : Type 0 where
  pub service_account_name : Str
  pub security_context : Option Raw
  pub containers : List Container
  pub node_selector : Labels
  pub affinity : Option Raw
  pub tolerations : List Raw
  pub volumes : List Volume

pub record PodTemplateSpec : Type 0 where
  pub labels : Labels
  pub annotations : Labels
  pub spec : PodSpec

pub record DeploymentSpec : Type 0 where
  pub max_surge : Option Raw
  pub max_unavailable : Option Raw
  pub replicas : Option ℕ
  pub selector : Labels
  pub template : PodTemplateSpec

pub record Deployment : Type 0 where
  pub meta : ObjectMeta
  pub spec : DeploymentSpec
  -- the status, which the server fills in
  pub available_replicas : ℕ
