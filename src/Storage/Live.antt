-- ===== src/Storage/Live.antt =====
-- The live store's entries: storage.go, getOrCreateState.
use metricz_exporter.Base.{◌≡◌, ◌≟◌, refl, ap, ite, ℤ, add64, String, string_key, some, arith}
use metricz_exporter.Metrics.{Families}
use metricz_exporter.Base.Map.{get-set}
use metricz_exporter.Storage.{
  Time, InstanceState, Storage, get_or_create_state, put_state, reported_interval, update_ingested,
}

-- After a state is written under an instance, that instance has the written state, and every other
-- one the state that it had before.
pub get_or_create_state-put_state :
    (id j : String) (state : InstanceState) (s : Storage)
    → get_or_create_state j (put_state id state s) ≡ ite (id ≟ j) state (get_or_create_state j s)
unfolding get_or_create_state put_state
get_or_create_state-put_state id j state s = ground (arith, get-set id j state s.live_store)

-- What UpdateIngested leaves: the instance's families, with their time and their interval, its
-- counters, and all else as it was.
pub record IsPublished (now later : Time) (id : String) (families : Families) (bytes chunks : ℤ)
    (s s' : Storage) : Type 0 where
  pub ingested : (get_or_create_state id s').ingested_families ≡ some families
  pub updated : (get_or_create_state id s').last_ingest_update ≡ now
  pub interval : (get_or_create_state id s').scrape_interval ≡ reported_interval families
  pub total_bytes :
      (get_or_create_state id s').ingest_stats.total_bytes
      ≡ add64 (get_or_create_state id s).ingest_stats.total_bytes bytes
  pub total_chunks :
      (get_or_create_state id s').ingest_stats.total_chunks
      ≡ add64 (get_or_create_state id s).ingest_stats.total_chunks chunks
  pub polled :
      (get_or_create_state id s').polled_families ≡ (get_or_create_state id s).polled_families
  pub rcon : (get_or_create_state id s').rcon_families ≡ (get_or_create_state id s).rcon_families
  pub others :
      (j : String)
      → get_or_create_state j s'
        ≡ ite (id ≟ j) (get_or_create_state id s') (get_or_create_state j s)
  pub staged : s'.staging_store ≡ s.staging_store
  pub size : s'.staging_size ≡ s.staging_size

get_or_create_state-put_state_self :
    (id : String) (state : InstanceState) (s : Storage)
    → get_or_create_state id (put_state id state s) ≡ state
get_or_create_state-put_state_self id state s =
    ground (arith, get_or_create_state-put_state id id state s)

pub update_ingested-IsPublished :
    (now later : Time) (id : String) (families : Families) (bytes chunks : ℤ) (s : Storage)
    → IsPublished now later id families bytes chunks s
        (update_ingested now later id families bytes chunks s)
unfolding update_ingested put_state
update_ingested-IsPublished now later id families bytes chunks s =
    let own = get_or_create_state-put_state_self id _ s in
    record {
      ingested = ap (λ (state : InstanceState). state.ingested_families) own;
      updated = ap (λ (state : InstanceState). state.last_ingest_update) own;
      interval = ap (λ (state : InstanceState). state.scrape_interval) own;
      total_bytes = ap (λ (state : InstanceState). state.ingest_stats.total_bytes) own;
      total_chunks = ap (λ (state : InstanceState). state.ingest_stats.total_chunks) own;
      polled = ap (λ (state : InstanceState). state.polled_families) own;
      rcon = ap (λ (state : InstanceState). state.rcon_families) own;
      others = λ j. rw own (get_or_create_state-put_state id j _ s);
      staged = refl;
      size = refl;
    }
