-- ===== src/Scoring/Reference/Older.antt =====
-- How the two anchor tables differ.
use darcbench.Base.{
  ◌≡◌, refl, ap, ◌∙◌, Bool, true, false, Option, none, some, String, List, [], ◌∷◌, All,
  if◌then◌else◌, ◌==◌, string_eq,
}
use darcbench.Base.Num.{Float}
use darcbench.Base.Map.{Map, lookup, insert, string_lt}
use darcbench.Base.Map.Entries.{lookup-insert}
use darcbench.Protocol.Metrics.{lower_is_better}
use darcbench.Scoring.Category.{network}
use darcbench.Scoring.Reference.Defs.{
  latency_point, ReferencePoint, ReferenceProfile, scoped_key, get,
}
use darcbench.Scoring.Reference.Tables.{
  insert_all, provisional_reference, older_points, reference_dbs_0_1_0_dev,
}

abbrev pub or_else : {A : Type 0} → Option A → Option A → Option A
or_else none o = o
or_else (some a) o = some a

module _ {F : Type 0} ⦃f : Float F⦄ where
  -- the anchor that a list gives to a key last
  abbrev pub last_of : String → List (String × ReferencePoint F) → Option (ReferencePoint F)
  last_of k [] = none
  last_of k ((j, p) ∷ ps) = or_else (last_of k ps) (if j == k then some p else none)

  or_else_assoc :
      (o : Option (ReferencePoint F)) (b : Bool) (p : ReferencePoint F)
      (q : Option (ReferencePoint F))
      → or_else o (if b then some p else q) ≡ or_else (or_else o (if b then some p else none)) q
  or_else_assoc none true p q = refl
  or_else_assoc none false p q = refl
  or_else_assoc (some a) b p q = refl

  pub lookup-insert_all :
      (k : String) (ps : List (String × ReferencePoint F)) (m : Map String (ReferencePoint F))
      → lookup k (insert_all ps m) ≡ or_else (last_of k ps) (lookup k m)
  unfolding insert_all
  lookup-insert_all k [] m = refl
  lookup-insert_all k ((j, p) ∷ ps) m =
      lookup-insert_all k ps (insert j p m)
      ∙ (ap (or_else (last_of k ps)) (lookup-insert k j p m)
          ∙ or_else_assoc (last_of k ps) (j == k) p (lookup k m))

  abbrev network_latency : F → F → ReferencePoint F
  network_latency value weight = record {
    value = value;
    direction = lower_is_better;
    weight = weight;
    category = network;
    facet = none;
  }

  -- What the superseded model says of the network's latencies, in milliseconds, with the weights.
  abbrev pub latencies : List (String × ReferencePoint F)
  latencies =
      ("network.transfer/ttfb.mean", network_latency (f.lit 25 0) (f.lit 1 0))
      ∷ ("network.transfer/tcp_connect.mean", network_latency (f.lit 5 0) (f.lit 1 0))
      ∷ ("network.transfer/tcp_connect.jitter", network_latency (f.lit 5 1) (f.lit 75 2))
      ∷ ("network.transfer/tls_handshake.mean", network_latency (f.lit 10 0) (f.lit 75 2))
      ∷ ("network.transfer/dns_resolve.mean", network_latency (f.lit 5 0) (f.lit 5 1))
      ∷ []

  older_points_lem : older_points ≡ latencies
  unfolding older_points latency_point
  older_points_lem = refl

  anchored_only_there :
      All
        (λ (p : String × ReferencePoint F).
          lookup (p.0) (provisional_reference {F = F}).points ≡ none)
        latencies
  unfolding provisional_reference lookup insert
  anchored_only_there = (refl, (refl, (refl, (refl, (refl, tt)))))

  -- The superseded model anchors five latencies of `network.transfer` besides, by the values and
  -- weights given, the lower the better; the current model anchors none of the five, and every other
  -- metric has in the superseded model the anchor, or the lack of one, that it has in the current.
  pub get-reference_dbs_0_1_0_dev :
      (id key : String)
      → (get reference_dbs_0_1_0_dev id key
          ≡ or_else (last_of (scoped_key id key) latencies) (get provisional_reference id key))
        × All
            (λ (p : String × ReferencePoint F).
              lookup (p.0) (provisional_reference {F = F}).points ≡ none)
            latencies
  unfolding get reference_dbs_0_1_0_dev
  get-reference_dbs_0_1_0_dev id key =
      let profile : ReferenceProfile F = provisional_reference in
      (
        lookup-insert_all (scoped_key id key) older_points profile.points
            ∙ ap
                (λ ps.
                  or_else (last_of (scoped_key id key) ps)
                    (lookup (scoped_key id key) profile.points))
                older_points_lem,
        anchored_only_there,
      )
