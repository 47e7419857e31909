-- ===== src/Server/Status/Cache.antt =====
-- The cache of the public status: status.go, serveStatusRequest.
use metricz_exporter.Base.{◌≡◌, refl, ltb_ℤ, ◌+ℤ◌, Bool, true, String, string_key, none, some}
use metricz_exporter.Base.Map
use metricz_exporter.Metrics.{FloatOps}
use metricz_exporter.Storage.{Time, Bytes, Storage, get_instance_states}
use metricz_exporter.Config.{Config}
use metricz_exporter.Server.Status.{
  Marshal, PublicCache, PublicCacheItem, fetched, fetch, cached_body, with_json, refresh,
  serve_status_request,
}

cached_body-set :
    (now : Time) (key : String) (item : PublicCacheItem) (cache : PublicCache)
    → ltb_ℤ now item.expires_at ≡ true
    → cached_body now key (Map.set key item cache) ≡ some item.response
unfolding cached_body
cached_body-set now key item cache live =
    rw (Map.get-set_self key item cache, cached_body) (rw live refl)

module _ (float : FloatOps) (marshal : Marshal) (cfg : Config)
    (enabled : cfg.app.public.enabled ≡ true) (key : String) where
  serve_hit :
      (now later : Time) (is_all : Bool) (s : Storage) (cache : PublicCache) (bytes : Bytes)
      → cached_body now key cache ≡ some bytes
      → serve_status_request float marshal cfg now later key is_all s cache
        ≡ (cache, with_json cfg "HIT" bytes)
  unfolding serve_status_request
  serve_hit now later is_all s cache bytes h = rw enabled (rw (h, serve_status_request) refl)

  serve_miss :
      (now later : Time) (is_all : Bool) (s : Storage) (cache : PublicCache)
      → cached_body now key cache ≡ none
      → serve_status_request float marshal cfg now later key is_all s cache
        ≡ refresh cfg later key cache
            (fetch float marshal cfg.public_export key is_all (get_instance_states s))
  unfolding serve_status_request
  serve_miss now later is_all s cache h = rw enabled (rw (h, serve_status_request) refl)

  -- If the public status is enabled, nothing unexpired is cached under a key, and the data are
  -- marshalled to a body, a request answers that body as a miss; a later request under the same
  -- key, made before the cache's time is over, is answered with the same body as a hit, whatever
  -- the storage holds by then, and even if one of the two asks for all instances and the other for
  -- one.
  pub serve_status_request_twice :
      (now later now' later' : Time) (is_all is_all' : Bool) (s s' : Storage) (cache : PublicCache)
      (bytes : Bytes)
      → cached_body now key cache ≡ none
      → fetch float marshal cfg.public_export key is_all (get_instance_states s) ≡ fetched bytes
      → ltb_ℤ now' (later +ℤ cfg.app.public.public_cache_ttl) ≡ true
      → let first = serve_status_request float marshal cfg now later key is_all s cache in
        (first.1 ≡ with_json cfg "MISS" bytes)
        × (serve_status_request float marshal cfg now' later' key is_all' s' first.0
            ≡ (first.0, with_json cfg "HIT" bytes))
  unfolding refresh
  serve_status_request_twice now later now' later' is_all is_all' s s' cache bytes absent body
        live =
      rw (serve_miss now later is_all s cache absent, body)
        (refl, serve_hit now' later' is_all' s' _ bytes (cached_body-set now' key _ cache live))
