-- ===== src/Server/Config.antt =====
-- integrity-shield-server/pkg/config/request_handler_config.go: the configuration of the request
-- handler, the log levels, and the keys that are saved from secrets.
pub mod Keys
use integrity_shield.Base.{
  ℕ, Str, bytes, join, ◌==◌, Bool, true, false, List, [], ◌∷◌, ◌++◌, is_empty, Option, none, some,
  Error, Result, ok, err, if◌then◌else◌, ◌&&◌, not, map,
}
use integrity_shield.External.Kube.{Kube}
use integrity_shield.External.Sigstore.{Sigstore}
use integrity_shield.Server.Parameter.{ObjectUserBinding}

pub data Level : Type 0 where
  panic fatal error warn info debug trace : Level

-- `logLevelMap`
unfoldable pub log_level_map : Str → Option Level
log_level_map s =
    if s == bytes "panic"
    then some panic
    else if s == bytes "fatal"
    then some fatal
    else if s == bytes "error"
    then some error
    else if s == bytes "warn"
    then some warn
    else if s == bytes "info"
    then some info
    else if s == bytes "debug"
    then some debug
    else if s == bytes "trace"
    then some trace
    else none

pub record LogConfig : Type 0 where
  pub level : Str
  pub manifest_sigstore_log_level : Str
  pub format : Str

-- The logger of the process, and the environment variable that k8s-manifest-sigstore reads.
pub record Logger : Type 0 where
  pub k8s_log_level : Str
  pub level : Level
  pub json_format : Bool

pub record SideEffectConfig : Type 0 where
  pub create_deny_event : Bool

module _ {Cluster : Type 0} (S : Sigstore Cluster) where
  open S use {ObjectReference, ObjectFieldBinding}

  pub record RequestFilterProfile : Type 0 where
    pub skip_objects : List ObjectReference
    pub skip_users : List (ObjectUserBinding S)
    pub ignore_fields : List ObjectFieldBinding

  pub record RequestHandlerConfig : Type 0 where
    pub key_path_list : List Str
    pub request_filter_profile : RequestFilterProfile
    pub log : LogConfig
    pub side_effect_config : SideEffectConfig
    pub options : List Str

  -- `&RequestHandlerConfig{}`
  abbrev pub empty_config : RequestHandlerConfig
  empty_config = record {
    key_path_list = [];
    request_filter_profile = record { skip_objects = []; skip_users = []; ignore_fields = [] };
    log = record { level = []; manifest_sigstore_log_level = []; format = [] };
    side_effect_config = record { create_deny_event = false };
    options = [];
  }

-- The four assignments at the head of `SetupLogger`: the level of the logger, and that of
-- k8s-manifest-sigstore.
unfoldable pub log_levels : Str → Str → Str × Str
log_levels level k8s =
    let level' = if is_empty level && is_empty k8s then bytes "info" else level in
    let k8s' = if is_empty level && is_empty k8s then bytes "info" else k8s in
    let level'' = if is_empty level' && not (is_empty k8s') then k8s' else level' in
    let k8s'' = if not (is_empty level'') && is_empty k8s' then level'' else k8s' in
    (level'', k8s'')

unfoldable pub level_or_info : Option Level → Level
level_or_info none = info
level_or_info (some l) = l

unfoldable pub setup_logger : LogConfig → Logger → Logger
unfolding log_levels level_or_info log_level_map
setup_logger config logger =
    let (level, k8s) = log_levels config.level config.manifest_sigstore_log_level in
    record {
      k8s_log_level = k8s;
      level = level_or_info (log_level_map level);
      json_format = if config.format == bytes "json" then true else logger.json_format;
    }

-- Doubled slashes, which `filepath.Join` removes. A secret's namespace, name and keys have no
-- element `.` or `..`, so nothing else is left to clean.
unfoldable pub clean_path : Str → Str
clean_path [] = []
clean_path (c ∷ []) = c ∷ []
clean_path (c ∷ d ∷ s) =
    let rest = clean_path (d ∷ s) in
    if ((c ∷ []) == bytes "/") && ((d ∷ []) == bytes "/") then rest else c ∷ rest

unfoldable pub key_dir : Str → Str → Str
key_dir ns name = bytes "/tmp/" ++ (ns ++ (bytes "/" ++ (name ++ bytes "/")))

-- `filepath.Join(keyDir, fname)`
unfoldable pub key_file : Str → Str → Str
unfolding clean_path
key_file dir fname = clean_path (dir ++ (bytes "/" ++ fname))

module _ (K : Kube) where
  open K use {Cluster, Files, secret, mkdir_all, write_file, wrap, new_error}

  -- The loop over the data of a secret: it ends at the first file that is written. The path,
  -- which is empty if there is none, and the messages of the failed writes.
  unfoldable pub save_loop : Str → List (Str × Str) → List Str → Files → Str × List Str × Files
  save_loop dir [] sum_err files = ([], sum_err, files)
  save_loop dir ((fname, key_data) ∷ rest) sum_err files =
      let (e, files') = write_file (mkdir_all files dir) (key_file dir fname) key_data in
      elim e [
        | none ↦ (key_file dir fname, sum_err, files')
        | some x ↦ save_loop dir rest (sum_err ++ (x.message ∷ [])) files'
      ]

  unfoldable pub key_result : Str → Str → Str → List Str → Result Str
  key_result ns name key_path sum_err =
      if is_empty key_path && not (is_empty sum_err)
      then err
          (new_error (bytes "failed to save secret data as a file; " ++ join sum_err (bytes "; ")))
      else if is_empty key_path
      then err (
          new_error (
            bytes "no key files are found in the secret `"
            ++ (name ++ (bytes "` in `" ++ (ns ++ bytes "` namespace")))))
      else ok key_path

  unfoldable pub load_key_secret : Str → Str → Cluster → Files → Result Str × Files
  unfolding save_loop key_result key_dir key_file
  load_key_secret ns name w files = elim (secret w ns name) [
    | err e ↦ (
      err (
          wrap e (
            bytes "failed to get a secret `"
            ++ (name ++ (bytes "` in `" ++ (ns ++ bytes "` namespace"))))),
      files,
    )
    | ok key_data ↦
        let (key_path, sum_err, files') = save_loop (key_dir ns name) key_data [] files in
        (key_result ns name key_path sum_err, files')
  ]
