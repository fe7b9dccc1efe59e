-- ===== src/Contract/TestEnv.antt =====
-- TestRunEnv of benchkit/contract/types.go, the environment in which a plugin runs a unit. `Any` is the
-- type of the values and `F` the type float64 with what is used of it; the file of an artifact and the
-- query escapes are parameters. Each operation is one section under its mutex.
use wkbench.Base.{
  ℕ, zero, suc, ℤ, pos, negsuc, is_nonpositive, Bool, Option, none, some, List, [], ◌∷◌, ◌++◌,
  Result, ok, err, Text, text, text_eq, Dict, lookup, insert, keys, if◌then◌else◌,
}
use wkbench.Base.Sort.{sort}
use wkbench.Contract.{ArtifactDef}
use wkbench.Units.Decimal.{name_at}

-- MetricSnapshot, with Go's zero value where the map has no entry
pub record Snapshot (F : Type 0) : Type 0 where
  pub name : Text
  pub type : Text
  pub labels : Dict Text
  pub count : ℤ  -- int64
  pub sum : F
  pub min : F
  pub max : F

-- ArtifactInfo
pub record ArtifactInfo : Type 0 where
  pub path : Text
  pub content_type : Text
  pub size_bytes : ℕ

-- What is used of float64
pub record Floats (F : Type 0) : Type 0 where
  pub zero_float : F
  pub add : F → F → F
  pub less : F → F → Bool
  pub seconds : ℤ → F  -- time.Duration.Seconds

-- TestRunEnv
pub record TestRunEnv (Any F : Type 0) : Type 0 where
  pub run_id : Text
  pub unit_name : Text
  pub inputs : Dict Any
  pub spec : Dict Any
  pub outputs : Dict Any
  pub counters : Dict F
  pub durations : Dict (List ℤ)
  pub metrics : Dict (Snapshot F)
  pub artifact_defs : Dict ArtifactDef
  pub artifacts : Dict ArtifactInfo
  pub report_dir : Text
  pub run_duration : ℤ
  pub worker_count : ℤ
  pub next_number : ℕ

or_not_found : {Any : Type 0} → Text → Option Any → Result Text Any
or_not_found name none = err name
or_not_found name (some value) = ok value

artifact_map : List ArtifactDef → Dict ArtifactDef → Dict ArtifactDef
artifact_map [] m = m
artifact_map (d ∷ ds) m = artifact_map ds (insert d.name d m)

module _ {Any F : Type 0} where
  -- NewTestRunEnv; a cloned map is the map
  unfoldable pub new_test_run_env : Text → Text → Dict Any → Dict Any → TestRunEnv Any F
  new_test_run_env run_id unit_name inputs spec = record {
    run_id = run_id;
    unit_name = unit_name;
    inputs = inputs;
    spec = spec;
    outputs = [];
    counters = [];
    durations = [];
    metrics = [];
    artifact_defs = [];
    artifacts = [];
    report_dir = [];
    run_duration = pos 1_000_000_000;
    worker_count = pos 1;
    next_number = 0;
  }

  -- SetRunDuration, SetWorkerCount, SetReportDir
  unfoldable pub set_run_duration : ℤ → TestRunEnv Any F → TestRunEnv Any F
  set_run_duration d e = record e { run_duration = d }

  unfoldable pub set_worker_count : ℤ → TestRunEnv Any F → TestRunEnv Any F
  set_worker_count n e = record e { worker_count = if is_nonpositive n then pos 1 else n }

  unfoldable pub set_report_dir : Text → TestRunEnv Any F → TestRunEnv Any F
  set_report_dir dir e = record e { report_dir = dir }

  -- WorkerCount
  unfoldable pub test_worker_count : TestRunEnv Any F → ℤ
  test_worker_count e = if is_nonpositive e.worker_count then pos 1 else e.worker_count

  -- Input; the error holds the name
  unfoldable pub test_input : Text → TestRunEnv Any F → Result Text Any
  unfolding or_not_found
  test_input name e = or_not_found name (lookup name e.inputs)

  -- SetOutput and Output
  unfoldable pub set_test_output : Text → Any → TestRunEnv Any F → TestRunEnv Any F
  set_test_output name value e = record e { outputs = insert name value e.outputs }

  unfoldable pub test_output : Text → TestRunEnv Any F → Option Any
  test_output name e = lookup name e.outputs

  -- NextID
  unfoldable pub test_next_id : Text → TestRunEnv Any F → Text × TestRunEnv Any F
  test_next_id prefix e =
      let n = suc e.next_number in
      (name_at (if text_eq prefix [] then text "id" else prefix) n, record e { next_number = n })

  -- DeclareArtifacts
  unfoldable pub declare_artifacts : List ArtifactDef → TestRunEnv Any F → TestRunEnv Any F
  unfolding artifact_map
  declare_artifacts defs e = record e { artifact_defs = artifact_map defs [] }

  -- recordArtifact
  unfoldable pub record_artifact : Text → ArtifactInfo → TestRunEnv Any F → TestRunEnv Any F
  record_artifact name info e = record e { artifacts = insert name info e.artifacts }

or_empty_text : Option Text → Text
or_empty_text none = []
or_empty_text (some t) = t

module _ (escape : Text → Text) where
  label_text : Dict Text → Text → Text
  unfolding or_empty_text
  label_text labels k = escape k ++ 61 ∷ escape (or_empty_text (lookup k labels))

  joined_labels : Dict Text → List Text → Text
  unfolding label_text
  joined_labels labels [] = []
  joined_labels labels (k ∷ []) = label_text labels k
  joined_labels labels (k ∷ j ∷ ks) =
      let rest = joined_labels labels (j ∷ ks) in label_text labels k ++ 44 ∷ rest

  -- metricSnapshotKey: name{key=value,...} with the keys sorted and escaped
  unfoldable pub metric_snapshot_key : Text → Dict Text → Text
  unfolding joined_labels
  metric_snapshot_key name [] = name
  metric_snapshot_key name (l ∷ ls) =
      name ++ (123 ∷ joined_labels (l ∷ ls) (sort (keys (l ∷ ls))) ++ 125 ∷ [])

plus_one : ℤ → ℤ
plus_one (pos n) = pos (suc n)
plus_one (negsuc zero) = pos 0
plus_one (negsuc (suc n)) = negsuc n

or_no_durations : Option (List ℤ) → List ℤ
or_no_durations none = []
or_no_durations (some ds) = ds

module _ {F : Type 0} (floats : Floats F) where
  or_zero : Option F → F
  or_zero none = floats.zero_float
  or_zero (some x) = x

  zero_snapshot : Snapshot F
  zero_snapshot = record {
    name = [];
    type = [];
    labels = [];
    count = pos 0;
    sum = floats.zero_float;
    min = floats.zero_float;
    max = floats.zero_float;
  }

  or_zero_snapshot : Option (Snapshot F) → Snapshot F
  unfolding zero_snapshot
  or_zero_snapshot none = zero_snapshot
  or_zero_snapshot (some s) = s

  counted_snapshot : Text → F → Dict Text → Snapshot F → Snapshot F
  unfolding plus_one
  counted_snapshot name delta labels s =
      let named : Snapshot F =
        if text_eq s.type []
        then record s { name = name; type = text "counter"; labels = labels }
        else s in
      record named { count = plus_one named.count; sum = floats.add named.sum delta }

  ranged_snapshot : Text → F → Dict Text → Snapshot F → Snapshot F
  ranged_snapshot name x labels s =
      if text_eq s.type []
      then record s { name = name; type = text "duration"; labels = labels; min = x; max = x }
      else record s {
        min = if floats.less x s.min then x else s.min;
        max = if floats.less s.max x then x else s.max;
      }

  observed_snapshot : Text → F → Dict Text → Snapshot F → Snapshot F
  unfolding ranged_snapshot plus_one
  observed_snapshot name x labels s =
      let r = ranged_snapshot name x labels s in
      record r { count = plus_one r.count; sum = floats.add r.sum x }

  snapshots_at : Dict (Snapshot F) → List Text → List (Snapshot F)
  unfolding or_zero_snapshot
  snapshots_at m [] = []
  snapshots_at m (k ∷ ks) = or_zero_snapshot (lookup k m) ∷ snapshots_at m ks

module _ {Any F : Type 0} (floats : Floats F) (escape : Text → Text) where
  -- EmitCounter
  unfoldable pub emit_test_counter : Text → F → Dict Text → TestRunEnv Any F → TestRunEnv Any F
  unfolding or_zero or_zero_snapshot counted_snapshot metric_snapshot_key
  emit_test_counter name delta labels e =
      let k = metric_snapshot_key escape name labels in
      record e {
        counters =
            insert name (floats.add (or_zero floats (lookup name e.counters)) delta) e.counters;
        metrics =
            insert k
              (counted_snapshot floats name delta labels
                (or_zero_snapshot floats (lookup k e.metrics)))
              e.metrics;
      }

  -- ObserveDuration, in nanoseconds
  unfoldable pub observe_test_duration : Text → ℤ → Dict Text → TestRunEnv Any F → TestRunEnv Any F
  unfolding or_no_durations or_zero_snapshot observed_snapshot metric_snapshot_key
  observe_test_duration name value labels e =
      let k = metric_snapshot_key escape name labels in
      record e {
        durations =
            insert name (or_no_durations (lookup name e.durations) ++ value ∷ []) e.durations;
        metrics =
            insert k
              (observed_snapshot floats name (floats.seconds value) labels
                (or_zero_snapshot floats (lookup k e.metrics)))
              e.metrics;
      }

  -- MetricSnapshots
  unfoldable pub metric_snapshots : TestRunEnv Any F → List (Snapshot F)
  unfolding snapshots_at
  metric_snapshots e = snapshots_at floats e.metrics (sort (keys e.metrics))

  -- RecordMetricSnapshot
  unfoldable pub record_metric_snapshot : Snapshot F → TestRunEnv Any F → TestRunEnv Any F
  unfolding metric_snapshot_key
  record_metric_snapshot s e =
      if is_nonpositive s.count
      then e
      else record e { metrics = insert (metric_snapshot_key escape s.name s.labels) s e.metrics }
