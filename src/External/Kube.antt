-- ===== src/External/Kube.antt =====
-- The Kubernetes clients, the process environment, the file system and pkg/errors, as the code of
-- integrity-shield-server, admission-controller, observer and integrity-shield-operator sees them.
use integrity_shield.Base.{ℕ, Str, Error, Result, Option, none, List, ◌≡◌, ◌≢◌, ok}

pub record Kube : Type 1 where
  -- what the API server stores
  pub Cluster : Type 0
  pub Files : Type 0
  pub getenv : Str → Str
  -- the reading of the clock
  pub now : ℕ
  -- `kubeutil.GetKubeConfig` and `NewForConfig`, by their errors
  pub kube_config : Option Error
  pub new_for_config : Option Error
  -- the data of a ConfigMap, by namespace and name
  pub config_map : Cluster → Str → Str → Result (List (Str × Str))
  -- `kubeutil.GetResource("v1", "Secret", …)`, decoded: its data, in the order of Go's iteration
  pub secret : Cluster → Str → Str → Result (List (Str × Str))
  pub mkdir_all : Files → Str → Files
  pub write_file : Files → Str → Str → Option Error × Files
  -- `errors.Wrap` and `errors.New` of pkg/errors
  pub wrap : Error → Str → Error
  pub new_error : Str → Error

-- The typed client of one kind of resource, in the namespace that comes first.
pub record Client (Cluster : Type 0) (R : Type 0) : Type 0 where
  pub get : Cluster → Str → Str → Result R
  pub create : Cluster → Str → R → Option Error × Cluster
  pub update : Cluster → Str → R → Option Error × Cluster

-- What the API server documents of `Get` and `Update`: an object is found under its own name, and
-- an update that succeeds stores the object under its name and leaves the others alone.
pub record UpdateIsLawful {C : Type 0} {R : Type 0} (name : R → Str) (c : Client C R) : Type 0 where
  pub name-get : (w : C) (ns n : Str) {r : R} → c.get w ns n ≡ ok r → name r ≡ n
  pub get-update :
      (w : C) (ns : Str) (r : R)
      → (c.update w ns r).0 ≡ none
      → c.get (c.update w ns r).1 ns (name r) ≡ ok r
  pub get-update_ne :
      (w : C) (ns other : Str) (r : R)
      → name r ≢ other
      → c.get (c.update w ns r).1 ns other ≡ c.get w ns other

-- The same of `Create`.
pub record CreateIsLawful {C : Type 0} {R : Type 0} (name : R → Str) (c : Client C R) : Type 0 where
  pub get-create :
      (w : C) (ns : Str) (r : R)
      → (c.create w ns r).0 ≡ none
      → c.get (c.create w ns r).1 ns (name r) ≡ ok r
