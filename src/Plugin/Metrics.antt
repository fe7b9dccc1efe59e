-- ===== src/Plugin/Metrics.antt =====
-- Metric snapshots: writeMetricFlush of sdk/go/wkbench/plugin/server.go, and applyMetricFlush with
-- replayCounterSnapshot of benchkit/pluginhost/stdio_client.go. `F` is the type float64 and `div` its
-- division by a count.
use wkbench.Base.{
  ℕ, zero, suc, ℤ, pos, negsuc, Option, none, some, List, [], ◌∷◌, Text, text, text_eq, Dict,
  if◌then◌else◌,
}

pub record MetricSnapshot (F : Type 0) : Type 0 where
  pub name : Text
  pub type : Text
  pub labels : Dict Text
  pub count : ℤ  -- int64
  pub sum : F
  pub min : F
  pub max : F

-- What applyMetricFlush calls: the recorder, where the environment is a MetricSnapshotRecorder, and
-- EmitCounter
pub record MetricEnv (F S : Type 0) : Type 0 where
  pub recorder : Option (MetricSnapshot F → S → S)
  pub emit_counter : Text → F → Dict Text → S → S

module _ {F S : Type 0} (div : F → ℕ → F) (env : MetricEnv F S) where
  unfoldable pub emit_times : ℕ → Text → F → Dict Text → S → S
  emit_times zero name delta labels s = s
  emit_times (suc n) name delta labels s =
      emit_times n name delta labels (env.emit_counter name delta labels s)

  -- replayCounterSnapshot, of a positive count
  unfoldable pub replay_counter_snapshot : MetricSnapshot F → ℕ → S → S
  unfolding emit_times
  replay_counter_snapshot m count s = emit_times count m.name (div m.sum count) m.labels s

  unfoldable pub apply_with : MetricSnapshot F → ℕ → Option (MetricSnapshot F → S → S) → S → S
  unfolding replay_counter_snapshot
  apply_with m count (some record_snapshot) s = record_snapshot m s
  apply_with m count none s =
      if text_eq m.type (text "duration") then s else replay_counter_snapshot m count s

  unfoldable pub apply_counted : MetricSnapshot F → ℤ → S → S
  unfolding apply_with
  apply_counted m (pos zero) s = s
  apply_counted m (pos (suc n)) s = apply_with m (suc n) env.recorder s
  apply_counted m (negsuc n) s = s

  -- applyMetricFlush, with its metrics
  unfoldable pub apply_metric_flush : List (Option (MetricSnapshot F)) → S → S
  unfolding apply_counted
  apply_metric_flush [] s = s
  apply_metric_flush (none ∷ ms) s = apply_metric_flush ms s
  apply_metric_flush (some m ∷ ms) s = apply_metric_flush ms (apply_counted m m.count s)
