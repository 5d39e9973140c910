-- ===== src/Scoring/Reference/Services.antt =====
-- crates/darcbench-scoring/src/reference.rs: the anchors of `provisional_reference` for what runs on the machine.
use darcbench.Base.{String, none, List, [], ◌∷◌}
use darcbench.Base.Num.{Float}
use darcbench.Scoring.Category.{web, database, deployment}
use darcbench.Scoring.Reference.Defs.{ReferencePoint, point, latency_point}

module _ {F : Type 0} ⦃f : Float F⦄ where
  unfoldable pub web_static_points : List (String × ReferencePoint F)
  web_static_points =
      ("web.static/requests.small_keepalive", point (f.lit 120000 0) (f.lit 15 1) web none)
      ∷ ("web.static/connections.plaintext", point (f.lit 25000 0) (f.lit 75 2) web none)
      ∷ ("web.static/connections.tls", point (f.lit 3000 0) (f.lit 1 0) web none)
      ∷ ("web.static/throughput.medium", point (f.lit 3000 0) (f.lit 1 0) web none)
      ∷ ("web.static/throughput.large", point (f.lit 5000 0) (f.lit 75 2) web none)
      ∷ ("web.static/latency.small_mean", latency_point (f.lit 5 1) (f.lit 1 0) web none)
      ∷ ("web.static/latency.small_p99", latency_point (f.lit 2 0) (f.lit 125 2) web none)
      ∷ []

  unfoldable pub php_runtime_points : List (String × ReferencePoint F)
  php_runtime_points =
      ("php.runtime/hash.password", point (f.lit 62 0) (f.lit 125 2) web none)
      ∷ ("php.runtime/json.encode", point (f.lit 900000 0) (f.lit 1 0) web none)
      ∷ ("php.runtime/json.decode", point (f.lit 700000 0) (f.lit 1 0) web none)
      ∷ ("php.runtime/array.ops", point (f.lit 400000 0) (f.lit 1 0) web none)
      ∷ ("php.runtime/template.render", point (f.lit 800000 0) (f.lit 1 0) web none)
      ∷ ("php.runtime/hash.sha256", point (f.lit 140000 0) (f.lit 75 2) web none)
      ∷ ("php.runtime/startup.cold", latency_point (f.lit 30 0) (f.lit 125 2) web none)
      ∷ []

  unfoldable pub node_runtime_points : List (String × ReferencePoint F)
  node_runtime_points =
      ("node.runtime/json.stringify", point (f.lit 450000 0) (f.lit 1 0) web none)
      ∷ ("node.runtime/json.parse", point (f.lit 600000 0) (f.lit 1 0) web none)
      ∷ ("node.runtime/ssr.render", point (f.lit 1000000 0) (f.lit 1 0) web none)
      ∷ ("node.runtime/crypto.hash", point (f.lit 110000 0) (f.lit 75 2) web none)
      ∷ ("node.runtime/async.fileio", point (f.lit 6000 0) (f.lit 125 2) web none)
      ∷ ("node.runtime/module.load", point (f.lit 260 0) (f.lit 125 2) web none)
      ∷ ("node.runtime/startup.cold", latency_point (f.lit 90 0) (f.lit 1 0) web none)
      ∷ []

  unfoldable pub database_oltp_points : List (String × ReferencePoint F)
  database_oltp_points =
      ("database.oltp/write.tps", point (f.lit 10000 0) (f.lit 15 1) database none)
      ∷ ("database.oltp/read.tps", point (f.lit 100000 0) (f.lit 125 2) database none)
      ∷ ("database.oltp/write.latency_mean", latency_point (f.lit 8 1) (f.lit 1 0) database none)
      ∷ ("database.oltp/read.latency_mean", latency_point (f.lit 4 1) (f.lit 1 0) database none)
      ∷ (
        "database.oltp/write.latency_estimated_p95",
        latency_point (f.lit 2 0) (f.lit 5 1) database none,
      )
      ∷ (
        "database.oltp/read.latency_estimated_p95",
        latency_point (f.lit 1 0) (f.lit 5 1) database none,
      )
      ∷ []

  unfoldable pub database_cache_points : List (String × ReferencePoint F)
  database_cache_points =
      ("database.cache/get.throughput", point (f.lit 180000 0) (f.lit 15 1) database none)
      ∷ ("database.cache/set.throughput", point (f.lit 170000 0) (f.lit 1 0) database none)
      ∷ ("database.cache/incr.throughput", point (f.lit 180000 0) (f.lit 75 2) database none)
      ∷ ("database.cache/pipelined.throughput", point (f.lit 1500000 0) (f.lit 1 0) database none)
      ∷ (
        "database.cache/roundtrip.unloaded_mean",
        latency_point (f.lit 8 2) (f.lit 125 2) database none,
      )
      ∷ (
        "database.cache/roundtrip.unloaded_max",
        latency_point (f.lit 1 0) (f.lit 5 1) database none,
      )
      ∷ []

  unfoldable pub deployment_container_points : List (String × ReferencePoint F)
  deployment_container_points =
      (
        "deployment.container/build.uncached",
        latency_point (f.lit 15 1) (f.lit 15 1) deployment none,
      )
      ∷ (
        "deployment.container/build.cached",
        latency_point (f.lit 15 2) (f.lit 125 2) deployment none,
      )
      ∷ ("deployment.container/cache.speedup", point (f.lit 10 0) (f.lit 5 1) deployment none)
      ∷ ("deployment.container/image.save", point (f.lit 120 0) (f.lit 75 2) deployment none)
      ∷ ("deployment.container/image.load", point (f.lit 120 0) (f.lit 75 2) deployment none)
      ∷ (
        "deployment.container/startup.cold",
        latency_point (f.lit 300 0) (f.lit 1 0) deployment none,
      )
      ∷ (
        "deployment.container/health.to_serving",
        latency_point (f.lit 400 0) (f.lit 1 0) deployment none,
      )
      ∷ []

  unfoldable pub wordpress_site_points : List (String × ReferencePoint F)
  wordpress_site_points =
      ("wordpress.site/origin.warm", latency_point (f.lit 40 0) (f.lit 15 1) web none)
      ∷ ("wordpress.site/origin.capacity", point (f.lit 180 0) (f.lit 125 2) web none)
      ∷ ("wordpress.site/database.archive", latency_point (f.lit 45 0) (f.lit 1 0) web none)
      ∷ ("wordpress.site/admin.dashboard", latency_point (f.lit 40 0) (f.lit 1 0) web none)
      ∷ ("wordpress.site/origin.cold", latency_point (f.lit 300 0) (f.lit 5 1) web none)
      ∷ []
