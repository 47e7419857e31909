-- ===== src/Entrypoint/Polls.antt =====
-- From an A2S poll to the scrapes after it: a2s.go, manager.go, storage.go and collector.go.
use metricz_exporter.Base.{
  ◌≡◌, Bool, true, refl, Option, some, List, map, In, In-append_left, In-append_right, String,
  string_key, inl, arith,
}
use metricz_exporter.Base.Map
use metricz_exporter.Base.Map.{Map}
use metricz_exporter.Metrics.{Float64, FloatOps, LabelPair, Families}
use metricz_exporter.Storage.{
  Time, Duration, Storage, get_or_create_state, get_instance_states, update_polled,
}
use metricz_exporter.Storage.Collector.{
  Desc, ConstMetric, gauge_value, new_exporter, emit_optional, emit_stats, collect_instance,
  collect,
}
use metricz_exporter.Storage.Collector.Samples.{sample, Source, emit_families_iff}
use metricz_exporter.Config.{ServerDefinition, A2sConfig}
use metricz_exporter.Poller.Dto.{gauge_of}
use metricz_exporter.Poller.Dto.Gauges.{Holds}
use metricz_exporter.Poller.A2s.{Client, poll_a2s, set_a2s_metrics}
use metricz_exporter.Poller.A2s.Readings.{Reading, readings, readings-Holds}
use metricz_exporter.Poller.Manager.{info_of, a2s_tick}
use metricz_exporter.Poller.Manager.Ticks.{update_polled-polled}
use metricz_exporter.Entrypoint.Scrapes.{In-collect_states}

-- A scrape shows the reading: a gauge of its name, its labels and its value.
pub record Shown (x : Reading) (sent : List (Option ConstMetric)) : Type 0 where
  pub metric : ConstMetric
  pub found : In (some metric) sent
  pub name : metric.desc.fq_name ≡ x.name
  pub names : metric.desc.label_names ≡ map (λ (l : LabelPair). l.name) x.labels
  pub values : metric.label_values ≡ map (λ (l : LabelPair). l.value) x.labels
  pub type : metric.value_type ≡ gauge_value
  pub value : metric.value ≡ x.value

polled-found :
    (id : String) (families : Families) (s : Storage)
    → (get_or_create_state id s).polled_families ≡ some families
    → Map.get id s.live_store ≡ some (get_or_create_state id s)
unfolding get_or_create_state
polled-found id families s h = ground arith

module _ (float : FloatOps) (valid : Desc → Bool) where
  -- A metric of an instance's polled families is in every scrape.
  polled-collected :
      (id : String) (families : Families) (c : ConstMetric) (s : Storage) (multiplier : Float64)
      (min_age : Duration) (t : Time)
      → (get_or_create_state id s).polled_families ≡ some families
      → Source valid families c
      → In (some c) (collect float valid (new_exporter s multiplier min_age) t)
  unfolding collect get_instance_states new_exporter collect_instance
  polled-collected id families c s multiplier min_age t polled source =
      let e = new_exporter s multiplier min_age in
      let state = get_or_create_state id s in
      let sent : In (some c) (emit_optional valid state.polled_families) =
        rw polled ((emit_families_iff valid families c).1 source) in
      In-collect_states float valid e t id state (some c) s.live_store
        (polled-found id families s polled)
        (In-append_right (emit_stats float e id state) (In-append_left _ sent))

abbrev name_of : LabelPair → String
name_of l = l.name

-- The collector accepts the name and the labels of the reading, with any help text.
abbrev pub Accepts : (Desc → Bool) → Reading → Type 0
Accepts valid x =
    (help : String)
    → valid (record { fq_name = x.name; help = help; label_names = map name_of x.labels }) ≡ true

module _ (valid : Desc → Bool) (x : Reading) (families : Families) where
  source :
      (h : Holds x.name (gauge_of x.labels x.value) families)
      → Accepts valid x
      → Source valid families (sample h.family (gauge_of x.labels x.value) gauge_value x.value)
  source h accepted = record {
    name = x.name;
    family = h.family;
    metric = gauge_of x.labels x.value;
    held = h.held;
    listed = h.listed;
    accepted = rw h.of_gauges.0 (accepted h.family.help);
    sampled = inl (h.of_gauges.1, refl);
  }

  shown :
      (h : Holds x.name (gauge_of x.labels x.value) families) (sent : List (Option ConstMetric))
      → In (some (sample h.family (gauge_of x.labels x.value) gauge_value x.value)) sent
      → Shown x sent
  shown h sent found = record {
    metric = sample h.family (gauge_of x.labels x.value) gauge_value x.value;
    found = found;
    name = h.of_gauges.0;
    names = refl;
    values = refl;
    type = refl;
    value = refl;
  }

-- After a tick of a server's A2S worker, every scrape of the storage, at any time, shows each of
-- the server's readings whose name and labels the collector accepts with any help text, as a gauge
-- of that name with exactly those labels and that value. If the query was answered, the readings
-- are metricz_a2s_info with the value 1 and the labels that describe the server, metricz_a2s_up
-- with 1, and the answer's response time, players, slots and queue, which is 0 if it is not known;
-- if the client or the query failed, they are these five gauges with 0.
pub collect-a2s_tick :
    (float : FloatOps) (seconds : Duration → Float64) (client : Client) (srv : ServerDefinition)
    (cfg : A2sConfig) (s : Storage)
    → srv.a2s ≡ some cfg
    → (valid : Desc → Bool) (multiplier : Float64) (min_age : Duration) (t : Time) (x : Reading)
    → In x (readings float seconds srv.instance_id cfg.address (poll_a2s client cfg))
    → Accepts valid x
    → let s' = a2s_tick float seconds client srv cfg s in
      Shown x (collect float valid (new_exporter s' multiplier min_age) t)
unfolding a2s_tick
collect-a2s_tick float seconds client srv cfg s configured valid multiplier min_age t x p accepted =
    let answer = poll_a2s client cfg in
    let families = set_a2s_metrics float seconds srv (info_of answer) in
    let s' = update_polled srv.instance_id families s in
    let h = readings-Holds float seconds srv cfg answer x configured p in
    shown valid x families h (collect float valid (new_exporter s' multiplier min_age) t) (
      polled-collected float valid srv.instance_id families
        (sample h.family (gauge_of x.labels x.value) gauge_value x.value) s' multiplier min_age t
        (update_polled-polled srv.instance_id families s) (source valid x families h accepted))
