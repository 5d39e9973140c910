-- ===== src/Scoring/Category.antt =====
-- crates/darcbench-scoring/src/model.rs: the categories and the composites with their weights.
use darcbench.Base.{ℕ, ◌≡◌, ◌↔◌, true, String, List, [], ◌∷◌, map, HasEq, arith, nat_beq}
use darcbench.Base.Num.{Float}
use darcbench.Base.Map.{HasLt}
use darcbench.Base.Enum.{by_rank, lt_by_rank}

pub data CategoryKey : Type 0 where
  compute memory storage network web database deployment : CategoryKey

abbrev category_rank : CategoryKey → ℕ
category_rank compute = 0
category_rank memory = 1
category_rank storage = 2
category_rank network = 3
category_rank web = 4
category_rank database = 5
category_rank deployment = 6

pub category_beq_iff :
    (a b : CategoryKey) → (nat_beq (category_rank a) (category_rank b) ≡ true) ↔ (a ≡ b)
category_beq_iff a b = ground arith

instance abbrev pub category_eq : HasEq CategoryKey
category_eq = by_rank category_rank category_beq_iff

instance abbrev pub category_lt : HasLt CategoryKey
category_lt = lt_by_rank category_rank

-- `CategoryKey::ALL`
abbrev pub all_categories : List CategoryKey
all_categories = compute ∷ memory ∷ storage ∷ network ∷ web ∷ database ∷ deployment ∷ []

unfoldable pub category_key : CategoryKey → String
category_key compute = "compute"
category_key memory = "memory"
category_key storage = "storage"
category_key network = "network"
category_key web = "web"
category_key database = "database"
category_key deployment = "deployment"

unfoldable pub category_label : CategoryKey → String
category_label compute = "Compute Score"
category_label memory = "Memory Score"
category_label storage = "Storage Score"
category_label network = "Network Score"
category_label web = "Web Score"
category_label database = "Database Score"
category_label deployment = "Deployment Score"

abbrev pub required_for_standard_total : List CategoryKey
required_for_standard_total = compute ∷ memory ∷ storage ∷ network ∷ web ∷ []

pub data CompositeKey : Type 0 where
  wordpress_hosting php_commerce node_nextjs database_server : CompositeKey
  static_media_server build_server general_purpose_vps : CompositeKey

abbrev composite_rank : CompositeKey → ℕ
composite_rank wordpress_hosting = 0
composite_rank php_commerce = 1
composite_rank node_nextjs = 2
composite_rank database_server = 3
composite_rank static_media_server = 4
composite_rank build_server = 5
composite_rank general_purpose_vps = 6

pub composite_beq_iff :
    (a b : CompositeKey) → (nat_beq (composite_rank a) (composite_rank b) ≡ true) ↔ (a ≡ b)
composite_beq_iff a b = ground arith

instance abbrev pub composite_eq : HasEq CompositeKey
composite_eq = by_rank composite_rank composite_beq_iff

-- `CompositeKey::ALL`
abbrev pub all_composites : List CompositeKey
all_composites =
    wordpress_hosting ∷ php_commerce ∷ node_nextjs ∷ database_server ∷ static_media_server
    ∷ build_server ∷ general_purpose_vps ∷ []

unfoldable pub composite_label : CompositeKey → String
composite_label wordpress_hosting = "WordPress Hosting"
composite_label php_commerce = "PHP Commerce"
composite_label node_nextjs = "Node / Next.js"
composite_label database_server = "Database Server"
composite_label static_media_server = "Static / Media Server"
composite_label build_server = "Build Server"
composite_label general_purpose_vps = "General Purpose VPS"

-- Weights in hundredths, as the literals are written.
unfoldable pub composite_percents : CompositeKey → List (CategoryKey × ℕ)
composite_percents wordpress_hosting =
    (compute, 20) ∷ (storage, 20) ∷ (web, 30) ∷ (database, 25) ∷ (memory, 5) ∷ []
composite_percents php_commerce =
    (compute, 25) ∷ (storage, 15) ∷ (web, 25) ∷ (database, 30) ∷ (memory, 5) ∷ []
composite_percents node_nextjs =
    (compute, 40) ∷ (memory, 15) ∷ (web, 30) ∷ (storage, 10) ∷ (deployment, 5) ∷ []
composite_percents database_server =
    (storage, 35) ∷ (database, 35) ∷ (memory, 20) ∷ (compute, 10) ∷ []
composite_percents static_media_server =
    (network, 40) ∷ (storage, 30) ∷ (web, 20) ∷ (compute, 10) ∷ []
composite_percents build_server =
    (compute, 45) ∷ (storage, 25) ∷ (memory, 20) ∷ (deployment, 10) ∷ []
composite_percents general_purpose_vps =
    (compute, 30) ∷ (memory, 15) ∷ (storage, 25) ∷ (network, 15) ∷ (web, 15) ∷ []

unfoldable pub standard_percent : CategoryKey → ℕ
standard_percent compute = 26
standard_percent memory = 12
standard_percent storage = 20
standard_percent network = 8
standard_percent web = 18
standard_percent database = 12
standard_percent deployment = 4

module _ {F : Type 0} ⦃f : Float F⦄ where
  unfoldable pub standard_weight : CategoryKey → F
  unfolding standard_percent
  standard_weight k = f.lit (standard_percent k) 2

  unfoldable pub weights : CompositeKey → List (CategoryKey × F)
  unfolding composite_percents
  weights c = map (λ (p : CategoryKey × ℕ). (p.0, f.lit (p.1) 2)) (composite_percents c)
