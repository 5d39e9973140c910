-- ===== src/Scoring/Reference/Tables.antt =====
-- crates/darcbench-scoring/src/reference.rs: the two anchor tables.
use darcbench.Base.{false, none, String, List, [], ◌∷◌, ◌++◌, string_eq}
use darcbench.Base.Num.{Float}
use darcbench.Base.Map.{Map, insert, string_lt}
use darcbench.Scoring.Category.{network}
use darcbench.Scoring.Reference.Defs.{ReferencePoint, ReferenceProfile, latency_point}
use darcbench.Scoring.Reference.Machine.{
  cpu_mixed_points, memory_bandwidth_points, storage_mixed_points, network_transfer_points,
}
use darcbench.Scoring.Reference.Services.{
  web_static_points, php_runtime_points, node_runtime_points, database_oltp_points,
  database_cache_points, deployment_container_points, wordpress_site_points,
}

module _ {F : Type 0} ⦃f : Float F⦄ where
  -- `points.insert` for each anchor, in the order of the source
  unfoldable pub insert_all :
      List (String × ReferencePoint F)
      → Map String (ReferencePoint F)
      → Map String (ReferencePoint F)
  insert_all [] m = m
  insert_all ((k, p) ∷ ps) m = insert_all ps (insert k p m)

  unfoldable pub all_points : List (String × ReferencePoint F)
  unfolding cpu_mixed_points memory_bandwidth_points storage_mixed_points network_transfer_points
      web_static_points php_runtime_points node_runtime_points database_oltp_points
      database_cache_points deployment_container_points wordpress_site_points
  all_points =
      cpu_mixed_points
      ++ (memory_bandwidth_points
          ++ (storage_mixed_points
              ++ (network_transfer_points
                  ++ (web_static_points
                      ++ (php_runtime_points
                          ++ (node_runtime_points
                              ++ (database_oltp_points
                                  ++ (database_cache_points
                                      ++ (deployment_container_points
                                          ++ wordpress_site_points)))))))))

  unfoldable pub provisional_reference : ReferenceProfile F
  unfolding insert_all all_points
  provisional_reference = record {
    name = "DARC-REF-1";
    calibrated = false;
    points = insert_all all_points [];
  }

  -- what the older model anchored besides
  unfoldable pub older_points : List (String × ReferencePoint F)
  older_points =
      ("network.transfer/ttfb.mean", latency_point (f.lit 25 0) (f.lit 1 0) network none)
      ∷ ("network.transfer/tcp_connect.mean", latency_point (f.lit 5 0) (f.lit 1 0) network none)
      ∷ ("network.transfer/tcp_connect.jitter", latency_point (f.lit 5 1) (f.lit 75 2) network none)
      ∷ (
        "network.transfer/tls_handshake.mean",
        latency_point (f.lit 10 0) (f.lit 75 2) network none,
      )
      ∷ ("network.transfer/dns_resolve.mean", latency_point (f.lit 5 0) (f.lit 5 1) network none)
      ∷ []

  unfoldable pub reference_dbs_0_1_0_dev : ReferenceProfile F
  unfolding insert_all older_points provisional_reference
  reference_dbs_0_1_0_dev =
      let profile : ReferenceProfile F = provisional_reference in
      record profile { points = insert_all older_points profile.points }
