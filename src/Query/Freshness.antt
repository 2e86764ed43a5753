-- ===== src/Query/Freshness.antt =====
-- When a summary of the quality of the data says that it is fresh.
use kube_cost.Prelude.{
  ℕ, String, Bool, true, false, not, ◌&&◌, ◌||◌, none, some, List, [], ◌∷◌, str_eq, if◌then◌else◌,
  ◌==◌, ◌≡◌, refl, arith, ◌+◌, ◌*◌, ◌/◌, ltb,
}
use kube_cost.Prelude.Dict.{mem}
use kube_cost.Wire.{ℤ, pos, negsuc}
use kube_cost.Gateway.{second}
use kube_cost.Query.{DataQualitySignal, Codecs}
use kube_cost.Query.Quality.{
  Summary, is_stale, freshness_of, add_signal, add_signals, start_summary, quality_of,
  summarize_data_quality,
}

-- It is still before the first moment at which the whole seconds since `latest` are more than those
-- of the window; no moment is within a negative window.
abbrev pub is_within : ℕ → ℤ → ℕ → Bool
is_within now (pos w) latest = ltb now (latest + (w / second + 1) * second)
is_within now (negsuc n) latest = false

-- The signal has metrics, and the latest are within the window.
abbrev pub is_fresh : ℕ → ℤ → DataQualitySignal → Bool
is_fresh now window x = elim x.latest_bucket_start [
  | none ↦ false
  | some latest ↦ not (x.record_count == 0) && is_within now window latest
]

stale-within :
    (now : ℕ) (window : ℤ) (latest : ℕ)
    → is_stale (freshness_of now latest) window ≡ not (is_within now window latest)
stale-within now (pos w) latest = ground arith
stale-within now (negsuc n) latest = refl

abbrev pub all_fresh : ℕ → ℤ → List DataQualitySignal → Bool
all_fresh now window [] = true
all_fresh now window (x ∷ xs) = is_fresh now window x && all_fresh now window xs

abbrev pub has_source : String → List DataQualitySignal → Bool
has_source s [] = false
has_source s (x ∷ xs) = str_eq x.source s || has_source s xs

module _ (codecs : Codecs) (now : ℕ) (window : ℤ) where
  add_signal-status :
      (x : DataQualitySignal) (a : Summary)
      → (add_signal codecs now window x a).status
        ≡ (if is_fresh now window x then a.status else "stale")
  unfolding add_signal
  add_signal-status x a = ground (arith, stale-within now window)

  add_signal-seen :
      (x : DataQualitySignal) (a : Summary)
      → (add_signal codecs now window x a).seen ≡ x.source ∷ a.seen
  unfolding add_signal
  add_signal-seen x a = ground arith

  add_signals-status :
      (xs : List DataQualitySignal) (a : Summary)
      → (add_signals codecs now window xs a).status
        ≡ (if all_fresh now window xs then a.status else "stale")
  unfolding add_signals
  add_signals-status [] a = refl
  add_signals-status (x ∷ xs) a =
      ground
        (arith, add_signals-status xs (add_signal codecs now window x a), add_signal-status x a)

  add_signals-seen :
      (source : String) (xs : List DataQualitySignal) (a : Summary)
      → mem source (add_signals codecs now window xs a).seen
        ≡ (has_source source xs || mem source a.seen)
  unfolding add_signals
  add_signals-seen source [] a = refl
  add_signals-seen source (x ∷ xs) a =
      ground
        (arith, add_signals-seen source xs (add_signal codecs now window x a), add_signal-seen x a)

abbrev pub container_source : String
container_source = "container_metrics_10s"

abbrev pub node_source : String
node_source = "node_metrics_10s"

-- What the report of a scope is to say: it is empty without any signal, fresh if every signal is
-- and both sources are among them, and stale else; all of the data is there, half of it, or none.
abbrev pub expected_status : ℕ → ℤ → List DataQualitySignal → String
expected_status now window [] = "empty"
expected_status now window (x ∷ xs) =
    if all_fresh now window (x ∷ xs)
      && has_source container_source (x ∷ xs)
      && has_source node_source (x ∷ xs)
    then "fresh"
    else "stale"

abbrev pub expected_percent : List DataQualitySignal → ℕ
expected_percent [] = 0
expected_percent (x ∷ xs) =
    if has_source container_source (x ∷ xs) && has_source node_source (x ∷ xs) then 100 else 50

quality_of-eq :
    (a : Summary) (window : ℤ)
    → ((quality_of a window).status
        ≡ (if mem container_source a.seen && mem node_source a.seen then a.status else "stale"))
      × ((quality_of a window).estimated_percent
          ≡ (if mem container_source a.seen && mem node_source a.seen then 100 else 50))
quality_of-eq a window = ground arith

-- The summary of any signals has the status "empty" without any, "fresh" if every signal has metrics
-- whose age in whole seconds is within the window and both sources are among them, and "stale" else;
-- and the percentage 0 without any, 100 if both sources are among them, and 50 else.
pub summarize-status :
    (codecs : Codecs) (tenant cluster : String) (now : ℕ) (window : ℤ)
    (signals : List DataQualitySignal)
    → ((summarize_data_quality codecs tenant cluster now window signals).quality.status
        ≡ expected_status now window signals)
      × ((summarize_data_quality codecs tenant cluster now window signals).quality.estimated_percent
          ≡ expected_percent signals)
unfolding summarize_data_quality
summarize-status codecs tenant cluster now window [] = (refl, refl)
summarize-status codecs tenant cluster now window (x ∷ xs) =
    let a = add_signals codecs now window (x ∷ xs) start_summary in
    let c = add_signals-seen codecs now window container_source (x ∷ xs) start_summary in
    let n = add_signals-seen codecs now window node_source (x ∷ xs) start_summary in
    let status = add_signals-status codecs now window (x ∷ xs) start_summary in
    let eq = quality_of-eq a window in
    (ground (arith, eq.0, c, n, status), ground (arith, eq.1, c, n))
