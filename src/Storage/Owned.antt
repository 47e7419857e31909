-- ===== src/Storage/Owned.antt =====
-- Which instance the metrics in the live store name: storage.go.
pub mod Staging
use metricz_exporter.Base.{
  ℕ, ◌≡◌, refl, ap, ℤ, String, string_key, Option, Option-cases, none, some, inl, inr, List, [],
  ◌∷◌, All, In, sym, subst,
}
use metricz_exporter.Base.Map
use metricz_exporter.Metrics.{FloatOps, LabelPair, Metric, MetricFamily, Families}
use metricz_exporter.Storage.{
  Time, Duration, Bytes, InstanceState, StagingItem, Storage, or_else, get_or_create_state,
  put_state, update_ingested, update_polled, update_rcon,
}

-- The label `instance_id` of an instance.
abbrev pub instance_label : String → LabelPair
instance_label id = record { name = "instance_id"; value = id }

-- The metric names the instance.
abbrev pub Names : String → Metric → Type 0
Names id m = In (instance_label id) m.label

abbrev pub NamesAll : String → MetricFamily → Type 0
NamesAll id mf = All (Names id) mf.metric

abbrev pub IsOwnFamilies : String → Families → Type 0
IsOwnFamilies id = Map.Values (NamesAll id)

abbrev pub IfAny {ℓ κ} : {A : Type ℓ} → (A → Type κ) → Option A → Type κ
IfAny P none = Unit
IfAny P (some a) = P a

-- All that is kept for an instance names it.
pub record IsOwn (id : String) (state : InstanceState) : Type 0 where
  pub ingested : IfAny (IsOwnFamilies id) state.ingested_families
  pub cached : IfAny (NamesAll id) state.cached_status_family
  pub polled : IfAny (IsOwnFamilies id) state.polled_families
  pub a2s : IfAny (IsOwnFamilies id) state.a2s_families
  pub rcon : IfAny (IsOwnFamilies id) state.rcon_families

abbrev pub IsOwned : Storage → Type 0
IsOwned s = Map.Entries IsOwn s.live_store

module _ (id : String) (s : Storage) (owned : IsOwned s) where
  pub get_or_create_state-IsOwn : IsOwn id (get_or_create_state id s)
  unfolding get_or_create_state
  get_or_create_state-IsOwn = elim (Option-cases (Map.get id s.live_store)) [
    | inl new ↦
        rw (new, get_or_create_state)
          (record { ingested = tt; cached = tt; polled = tt; a2s = tt; rcon = tt })
    | inr (state, found) ↦
        rw (found, get_or_create_state) (Map.Entries-get IsOwn id state s.live_store owned found)
  ]

  pub put_state-IsOwned : (state : InstanceState) → IsOwn id state → IsOwned (put_state id state s)
  unfolding put_state
  put_state-IsOwned state own = Map.Entries-set IsOwn id state s.live_store own owned

  status-own :
      (families : Families) (state : InstanceState)
      → IsOwnFamilies id families
      → IsOwn id state
      → IfAny
          (NamesAll id)
          (or_else (Map.get "dayz_metricz_status" families) state.cached_status_family)
  status-own families state owns own =
      elim (Option-cases (Map.get "dayz_metricz_status" families)) [
        | inl missing ↦ rw missing own.cached
        | inr (mf, found) ↦ rw found (Map.Values-get (NamesAll id) _ mf families owns found)
      ]

  module _ (families : Families) (owns : IsOwnFamilies id families) where
    pub update_ingested-IsOwned :
        (now later : Time) (bytes chunks : ℤ)
        → IsOwned (update_ingested now later id families bytes chunks s)
    unfolding update_ingested
    update_ingested-IsOwned now later bytes chunks =
        let own = get_or_create_state-IsOwn in
        put_state-IsOwned _ (record {
          ingested = owns;
          cached = status-own families (get_or_create_state id s) owns own;
          polled = own.polled;
          a2s = own.a2s;
          rcon = own.rcon;
        })

    pub update_polled-IsOwned : IsOwned (update_polled id families s)
    unfolding update_polled
    update_polled-IsOwned =
        let own = get_or_create_state-IsOwn in
        put_state-IsOwned _ (record {
          ingested = own.ingested;
          cached = own.cached;
          polled = owns;
          a2s = own.a2s;
          rcon = own.rcon;
        })

    pub update_rcon-IsOwned : IsOwned (update_rcon id families s)
    unfolding update_rcon
    update_rcon-IsOwned =
        let own = get_or_create_state-IsOwn in
        put_state-IsOwned _ (record {
          ingested = own.ingested;
          cached = own.cached;
          polled = own.polled;
          a2s = own.a2s;
          rcon = owns;
        })
