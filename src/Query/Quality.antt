-- ===== src/Query/Quality.antt =====
-- services/query/server.go, `summarizeDataQuality`: how fresh the metrics of a scope are.
use kube_cost.Prelude.{
  ℕ, ◌+◌, ◌-◌, ◌*◌, ◌/◌, String, Bool, true, Option, none, some, List, [], ◌∷◌, ◌++◌, if◌then◌else◌,
  ltb, ◌==◌,
}
use kube_cost.Prelude.Dict.{mem}
use kube_cost.Wire.{ℤ, pos, negsuc}
use kube_cost.Gateway.{second}
use kube_cost.Query.{DataQualitySignal, QualitySummary, DataQualityResult, Codecs}
use Prim.Native.String.{◌++◌ as append}

-- `int64(window.Seconds())`, towards zero.
abbrev pub whole_seconds : ℤ → ℤ
whole_seconds (pos w) = pos (w / second)
whole_seconds (negsuc n) = let k = (n + 1) / second in if k == 0 then pos 0 else negsuc (k - 1)

-- `time.Duration(freshness)*time.Second > window`
abbrev pub is_stale : ℕ → ℤ → Bool
is_stale freshness (pos w) = ltb w (freshness * second)
is_stale freshness (negsuc n) = true

-- `int64(now.Sub(latest).Seconds())`, or 0 where it is negative. `Seconds` is a float64, which the
-- model takes for exact: the two differ when a float of a large duration is rounded up to the next
-- whole second.
abbrev pub freshness_of : ℕ → ℕ → ℕ
freshness_of now latest = (now - latest) / second

-- The variables of the loop.
pub record Summary : Type 0 where
  pub status : String
  pub warnings : List String
  pub data_through : Option ℕ
  pub signals : List DataQualitySignal
  pub seen : List String

abbrev pub earlier : Option ℕ → ℕ → Option ℕ
earlier none t = some t
earlier (some d) t = if ltb t d then some t else some d

abbrev pub empty_signal : DataQualitySignal → Summary → Summary
empty_signal signal a = record a {
  status = "stale";
  warnings = a.warnings ++ append signal.source " has no metric facts" ∷ [];
  signals = a.signals ++ record signal { status = "empty"; warning = "no metric facts found" } ∷ [];
}

abbrev pub stale_signal : ℕ → ℕ → DataQualitySignal → Summary → Summary
stale_signal latest freshness signal a = record a {
  status = "stale";
  warnings = a.warnings ++ append signal.source " is stale" ∷ [];
  data_through = earlier a.data_through latest;
  signals =
      a.signals
      ++ record signal {
        freshness_seconds = some freshness;
        status = "stale";
        warning = "latest metric bucket is outside freshness window";
      }
        ∷ [];
}

abbrev pub fresh_signal : ℕ → ℕ → DataQualitySignal → Summary → Summary
fresh_signal latest freshness signal a = record a {
  data_through = earlier a.data_through latest;
  signals =
      a.signals ++ record signal { freshness_seconds = some freshness; status = "fresh" } ∷ [];
}

unfoldable pub add_signal : Codecs → ℕ → ℤ → DataQualitySignal → Summary → Summary
add_signal codecs now window raw a =
    let signal = record raw { expected_freshness_limit = codecs.show_duration window } in
    let b = record a { seen = raw.source ∷ a.seen } in
    elim raw.latest_bucket_start [
      | none ↦ empty_signal signal b
      | some latest ↦
          if raw.record_count == 0
          then empty_signal signal b
          else if is_stale (freshness_of now latest) window
          then stale_signal latest (freshness_of now latest) signal b
          else fresh_signal latest (freshness_of now latest) signal b
    ]

unfoldable pub add_signals : Codecs → ℕ → ℤ → List DataQualitySignal → Summary → Summary
add_signals codecs now window [] a = a
add_signals codecs now window (x ∷ xs) a =
    add_signals codecs now window xs (add_signal codecs now window x a)

-- The last loop, over the two sources.
abbrev pub add_missing : List String → String → QualitySummary → QualitySummary
add_missing seen source q = if mem source seen then q else record q {
  status = "stale";
  estimated_percent = 50;
  missing_scopes = q.missing_scopes ++ source ∷ [];
  warnings = q.warnings ++ append source " has no metric facts" ∷ [];
}

abbrev pub start_summary : Summary
start_summary = record {
  status = "fresh";
  warnings = [];
  data_through = none;
  signals = [];
  seen = [];
}

abbrev pub quality_of : Summary → ℤ → QualitySummary
quality_of a window = add_missing a.seen "node_metrics_10s" (
    add_missing a.seen "container_metrics_10s" (record {
      status = a.status;
      estimated_percent = 100;
      missing_scopes = [];
      warnings = a.warnings;
      freshness_window_secs = whole_seconds window;
    }))

abbrev pub nothing_found : ℤ → QualitySummary
nothing_found window = record {
  status = "empty";
  estimated_percent = 0;
  missing_scopes = "container_metrics_10s" ∷ "node_metrics_10s" ∷ [];
  warnings = "no metric facts found for tenant scope" ∷ [];
  freshness_window_secs = whole_seconds window;
}

unfoldable pub summarize_data_quality :
    Codecs → String → String → ℕ → ℤ → List DataQualitySignal → DataQualityResult
summarize_data_quality codecs tenant cluster now window [] = record {
  tenant_id = tenant;
  cluster_id = cluster;
  generated_at = now;
  data_through = none;
  computation_version = "data-quality-v1";
  signals = [];
  quality = nothing_found window;
}
summarize_data_quality codecs tenant cluster now window (x ∷ xs) =
    let a = add_signals codecs now window (x ∷ xs) start_summary in
    record {
      tenant_id = tenant;
      cluster_id = cluster;
      generated_at = now;
      data_through = a.data_through;
      computation_version = "data-quality-v1";
      signals = a.signals;
      quality = quality_of a window;
    }
