-- ===== src/Scoring/Reference/Defs.antt =====
-- crates/darcbench-scoring/src/reference.rs: anchors and how one is looked up.
use Prim.Native.String
use darcbench.Base.{ℕ, ◌≡◌, ◌↔◌, true, Bool, Option, String, HasEq, string_eq, arith, nat_beq}
use darcbench.Base.Map.{Map, lookup, HasLt}
use darcbench.Base.Enum.{by_rank, lt_by_rank}
use darcbench.Protocol.Metrics.{Direction, higher_is_better, lower_is_better}
use darcbench.Scoring.Category.{CategoryKey}

pub data Facet : Type 0 where
  single_core multi_core : Facet

abbrev facet_rank : Facet → ℕ
facet_rank single_core = 0
facet_rank multi_core = 1

pub facet_beq_iff : (a b : Facet) → (nat_beq (facet_rank a) (facet_rank b) ≡ true) ↔ (a ≡ b)
facet_beq_iff a b = ground arith

instance abbrev pub facet_eq : HasEq Facet
facet_eq = by_rank facet_rank facet_beq_iff

instance abbrev pub facet_lt : HasLt Facet
facet_lt = lt_by_rank facet_rank

unfoldable pub facet_key : Facet → String
facet_key single_core = "single_core"
facet_key multi_core = "multi_core"

pub record ReferencePoint (F : Type 0) : Type 0 where
  pub value : F
  pub direction : Direction
  pub weight : F
  pub category : CategoryKey
  pub facet : Option Facet

pub record ReferenceProfile (F : Type 0) : Type 0 where
  pub name : String
  pub calibrated : Bool
  pub points : Map String (ReferencePoint F)

-- `format!("{module_id}/{key}")`
abbrev pub scoped_key : String → String → String
scoped_key module_id key = String.◌++◌ module_id (String.◌++◌ "/" key)

module _ {F : Type 0} where
  unfoldable pub get : ReferenceProfile F → String → String → Option (ReferencePoint F)
  get p module_id metric_key = lookup (scoped_key module_id metric_key) p.points

  unfoldable pub point : F → F → CategoryKey → Option Facet → ReferencePoint F
  point value weight category facet = record {
    value = value;
    direction = higher_is_better;
    weight = weight;
    category = category;
    facet = facet;
  }

  unfoldable pub latency_point : F → F → CategoryKey → Option Facet → ReferencePoint F
  latency_point value weight category facet = record {
    value = value;
    direction = lower_is_better;
    weight = weight;
    category = category;
    facet = facet;
  }
