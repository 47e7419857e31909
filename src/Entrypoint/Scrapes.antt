-- ===== src/Entrypoint/Scrapes.antt =====
-- From an upload to the scrapes after it: ingest_single.go, storage.go and collector.go.
use metricz_exporter.Base.{
  ◌≡◌, refl, Bool, ℤ, sym, subst, ◌∙◌, ltb_ℤ, false, pos, String, string_key, ◌≟◌, Option, some, [],
  ◌∷◌, In, In-append_left, In-append_right, arith,
}
use metricz_exporter.Base.Map
use metricz_exporter.Base.Map.{Map}
use metricz_exporter.Metrics.{Float64, FloatOps, Families}
use metricz_exporter.Storage.{
  Time, Duration, InstanceState, Storage, get_or_create_state, get_instance_states,
}
use metricz_exporter.Storage.Live.{IsPublished, update_ingested-IsPublished}
use metricz_exporter.Storage.Collector.{
  Desc, ConstMetric, Exporter, new_exporter, time_sub, is_stale, emit_optional, emit_families,
  emit_current, emit_ingested, emit_stats, collect_instance, collect_states, collect,
}
use metricz_exporter.Storage.Collector.Samples.{Source, emit_families_iff}
use metricz_exporter.Storage.Collector.Staleness.{is_stale-eq}
use metricz_exporter.Parser.{ok}
use metricz_exporter.Config.{Config}
use metricz_exporter.Server.{Stream, Libraries, max_bytes_reader}
use metricz_exporter.Server.Ingest.{parse, handle_single_shot}

module _ (float : FloatOps) (valid : Desc → Bool) (e : Exporter) (t : Time) where
  pub In-collect_states :
      (id : String) (state : InstanceState) (x : Option ConstMetric)
      (states : Map String InstanceState)
      → Map.get id states ≡ some state
      → In x (collect_instance float valid e t id state)
      → In x (collect_states float valid e t states)
  unfolding Map.get collect_states
  In-collect_states id state x [] h p = let no : ⊥ = cc h in elim no [ ]
  In-collect_states id state x ((j, other) ∷ states) h p = elim (j ≟ id) [
    | yes same ↦
        let own : other ≡ state = ground arith in
        In-append_left (collect_states float valid e t states) (
          subst (λ k. In x (collect_instance float valid e t k other)) (sym same)
            (subst (λ u. In x (collect_instance float valid e t id u)) (sym own) p))
    | no apart ↦
        In-append_right (collect_instance float valid e t j other)
          (In-collect_states id state x states (ground arith) p)
  ]

  In-emit_ingested :
      (state : InstanceState) (families : Families) (x : Option ConstMetric)
      → state.ingested_families ≡ some families
      → is_stale float e t state ≡ false
      → In x (emit_families valid families)
      → In x (emit_ingested float valid e t state)
  unfolding emit_ingested emit_current
  In-emit_ingested state families x held fresh p = rw (fresh, held) p

  In-collect_instance :
      (id : String) (state : InstanceState) (x : Option ConstMetric)
      → In x (emit_ingested float valid e t state)
      → In x (collect_instance float valid e t id state)
  unfolding collect_instance
  In-collect_instance id state x p = In-append_right (emit_stats float e id state) (
      In-append_right (emit_optional valid state.polled_families) (
        In-append_right (emit_optional valid state.a2s_families)
          (In-append_right (emit_optional valid state.rcon_families) p)))

  fresh-false :
      (state : InstanceState)
      → ltb_ℤ e.min_stale_age (time_sub t state.last_ingest_update) ≡ false
      → is_stale float e t state ≡ false
  fresh-false state young = is_stale-eq float e t state ∙ rw young refl

get_or_create_state-found :
    (id : String) (families : Families) (s : Storage)
    → (get_or_create_state id s).ingested_families ≡ some families
    → Map.get id s.live_store ≡ some (get_or_create_state id s)
unfolding get_or_create_state
get_or_create_state-found id families s h = ground arith

-- The samples of published families are collected while they are young.
pub published-collected :
    {now later : Time} {id : String} {families : Families} {bytes chunks : ℤ} {s s' : Storage}
    (float : FloatOps) (valid : Desc → Bool) (multiplier : Float64) (min_age : Duration) (t : Time)
    (c : ConstMetric)
    → IsPublished now later id families bytes chunks s s'
    → ltb_ℤ min_age (time_sub t now) ≡ false
    → Source valid families c
    → In (some c) (collect float valid (new_exporter s' multiplier min_age) t)
unfolding collect get_instance_states new_exporter
published-collected {id = id} {families = families} {s' = s'} float valid multiplier min_age t c
      published young source =
    let e = new_exporter s' multiplier min_age in
    let state = get_or_create_state id s' in
    let fresh : is_stale float e t state ≡ false =
      fresh-false float valid e t state (rw published.updated young) in
    In-collect_states float valid e t id state (some c) s'.live_store
      (get_or_create_state-found id families s' published.ingested)
      (In-collect_instance float valid e t id state (some c) (
        In-emit_ingested float valid e t state families (some c) published.ingested fresh
          ((emit_families_iff valid families c).1 source)))

-- Where the parser accepts a single-shot upload, every scrape of the storage that the handler
-- leaves, which is made not later than the minimal stale age after the upload, contains the sample
-- of each gauge and counter of the parser's families whose description is valid.
pub collect-handle_single_shot :
    (lib : Libraries) (cfg : Config) (now later : Time) (id : String) (body : Stream) (s : Storage)
    (families : Families)
    → parse lib cfg (max_bytes_reader cfg.app.ingest.max_body_size body) id ≡ ok families
    → (valid : Desc → Bool) (t : Time) (c : ConstMetric)
    → ltb_ℤ cfg.app.stale.min_stale_age (time_sub t now) ≡ false
    → Source valid families c
    → let s' = (handle_single_shot lib cfg now later id body s).0 in
      In (some c) (
        collect lib.float valid
          (new_exporter s' cfg.app.stale.stale_multiplier cfg.app.stale.min_stale_age)
          t)
unfolding handle_single_shot
collect-handle_single_shot lib cfg now later id body s families parsed valid t c young source =
    rw (parsed, handle_single_shot)
      (published-collected lib.float valid cfg.app.stale.stale_multiplier
        cfg.app.stale.min_stale_age t c
        (update_ingested-IsPublished now later id families _ (pos 1) s) young source)
