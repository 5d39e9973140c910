-- ===== src/Protocol/Run.antt =====
-- crates/darcbench-protocol/src/run.rs: the lifecycle of a run, its profile, and what a result may
-- claim. A time stamp is a number of milliseconds; the wire names of serde are not modelled.
use darcbench.Base.{
  ℕ, ◌*◌, ◌≡◌, refl, sym, ap, ◌∙◌, Bool, true, false, ◌||◌, Option, none, some, String, List, [],
  ◌∷◌, ◌↔◌, map, arith, nat_beq, HasEq, ◌==◌, nat_eq, list_eq, pair_eq, string_eq, eq_of_beq,
  beq_of_eq, if◌then◌else◌,
}
use darcbench.Base.Text.{codes, to_lower}
use darcbench.Base.Enum.{by_rank}
pub mod Names

pub data RunState : Type 0 where
  created preflight running finalizing completed failed cancelled : RunState

abbrev pub is_terminal : RunState → Bool
is_terminal completed = true
is_terminal failed = true
is_terminal cancelled = true
is_terminal _ = false

pub data Profile : Type 0 where
  quick standard deep endurance read_only web_only custom : Profile

abbrev profile_rank : Profile → ℕ
profile_rank quick = 0
profile_rank standard = 1
profile_rank deep = 2
profile_rank endurance = 3
profile_rank read_only = 4
profile_rank web_only = 5
profile_rank custom = 6

pub profile_beq_iff : (a b : Profile) → (nat_beq (profile_rank a) (profile_rank b) ≡ true) ↔ (a ≡ b)
profile_beq_iff a b = ground arith

instance abbrev pub profile_eq : HasEq Profile
profile_eq = by_rank profile_rank profile_beq_iff

unfoldable pub as_str : Profile → String
as_str quick = "quick"
as_str standard = "standard"
as_str deep = "deep"
as_str endurance = "endurance"
as_str read_only = "read_only"
as_str web_only = "web_only"
as_str custom = "custom"

unfoldable pub is_standard : Profile → Bool
is_standard custom = false
is_standard read_only = false
is_standard _ = true

abbrev pub endurance_default_minutes : ℕ
endurance_default_minutes = 60

abbrev pub endurance_max_minutes : ℕ
endurance_max_minutes = 24 * 60

abbrev pub endurance_min_minutes : ℕ
endurance_min_minutes = 2

unfoldable pub nominal_duration_minutes : Profile → ℕ × ℕ
nominal_duration_minutes quick = (3, 6)
nominal_duration_minutes standard = (10, 20)
nominal_duration_minutes deep = (30, 60)
nominal_duration_minutes endurance = (endurance_default_minutes, endurance_max_minutes)
nominal_duration_minutes read_only = (4, 8)
nominal_duration_minutes web_only = (8, 15)
nominal_duration_minutes custom = (0, 0)

unfoldable pub cycle_target_minutes : Profile → Option ℕ
cycle_target_minutes endurance = some endurance_default_minutes
cycle_target_minutes _ = none

-- `s.to_ascii_lowercase().replace('-', "_")`, byte by byte.
abbrev pub normal_byte : ℕ → ℕ
normal_byte c = let l = to_lower c in if l == b'-' then b'_' else l

-- `match` on the text: the first alternative that is equal. `none` is the error `InvalidId`.
match_profile : List ℕ → Option Profile
match_profile s =
    if s == codes "quick"
    then some quick
    else if s == codes "standard"
    then some standard
    else if s == codes "deep"
    then some deep
    else if s == codes "endurance"
    then some endurance
    else if s == codes "read_only" || s == codes "readonly"
    then some read_only
    else if s == codes "web_only" || s == codes "web"
    then some web_only
    else if s == codes "custom"
    then some custom
    else none

unfoldable pub profile_from_str : List ℕ → Option Profile
unfolding match_profile
profile_from_str s = match_profile (map normal_byte s)

pub data ResultState : Type 0 where
  local self_reported validated verified official invalid partial custom : ResultState

unfoldable pub is_rankable : ResultState → Bool
is_rankable validated = true
is_rankable verified = true
is_rankable official = true
is_rankable _ = false

abbrev pub ModuleId : Type 0
ModuleId = String

pub data VerdictReason : Type 0 where
  required_module_missing module_failed excessive_variance : ModuleId → VerdictReason
  module_degraded : ModuleId → String → VerdictReason
  load_generator_saturated : ModuleId → VerdictReason
  environment_changed_mid_run clock_anomaly error_rate_exceeded : VerdictReason
  insufficient_disk_space interrupted : VerdictReason
  missing_metadata : String → VerdictReason
  custom_profile : VerdictReason
  incompatible_benchmark_version : String → String → VerdictReason
  signature_invalid score_recomputation_mismatch replay_detected : VerdictReason

-- The derived `==` of the reasons, through a tag and the texts that the reason carries.
abbrev reason_code : VerdictReason → ℕ × List String
reason_code (required_module_missing m) = (0, m ∷ [])
reason_code (module_failed m) = (1, m ∷ [])
reason_code (excessive_variance m) = (2, m ∷ [])
reason_code (module_degraded m r) = (3, m ∷ r ∷ [])
reason_code (load_generator_saturated m) = (4, m ∷ [])
reason_code environment_changed_mid_run = (5, [])
reason_code clock_anomaly = (6, [])
reason_code error_rate_exceeded = (7, [])
reason_code insufficient_disk_space = (8, [])
reason_code interrupted = (9, [])
reason_code (missing_metadata f) = (10, f ∷ [])
reason_code custom_profile = (11, [])
reason_code (incompatible_benchmark_version f e) = (12, f ∷ e ∷ [])
reason_code signature_invalid = (13, [])
reason_code score_recomputation_mismatch = (14, [])
reason_code replay_detected = (15, [])

first_text : List String → String
first_text [] = ""
first_text (s ∷ _) = s

second_text : List String → String
unfolding first_text
second_text [] = ""
second_text (_ ∷ ss) = first_text ss

reason_of : ℕ × List String → VerdictReason
reason_of (n, ss) =
    let a = first_text ss in
    let b = second_text ss in
    if n == 0
    then required_module_missing a
    else if n == 1
    then module_failed a
    else if n == 2
    then excessive_variance a
    else if n == 3
    then module_degraded a b
    else if n == 4
    then load_generator_saturated a
    else if n == 5
    then environment_changed_mid_run
    else if n == 6
    then clock_anomaly
    else if n == 7
    then error_rate_exceeded
    else if n == 8
    then insufficient_disk_space
    else if n == 9
    then interrupted
    else if n == 10
    then missing_metadata a
    else if n == 11
    then custom_profile
    else if n == 12
    then incompatible_benchmark_version a b
    else if n == 13
    then signature_invalid
    else if n == 14
    then score_recomputation_mismatch
    else replay_detected

reason_of-reason_code : (r : VerdictReason) → reason_of (reason_code r) ≡ r
unfolding reason_of first_text second_text
reason_of-reason_code (required_module_missing m) = refl
reason_of-reason_code (module_failed m) = refl
reason_of-reason_code (excessive_variance m) = refl
reason_of-reason_code (module_degraded m r) = refl
reason_of-reason_code (load_generator_saturated m) = refl
reason_of-reason_code environment_changed_mid_run = refl
reason_of-reason_code clock_anomaly = refl
reason_of-reason_code error_rate_exceeded = refl
reason_of-reason_code insufficient_disk_space = refl
reason_of-reason_code interrupted = refl
reason_of-reason_code (missing_metadata f) = refl
reason_of-reason_code custom_profile = refl
reason_of-reason_code (incompatible_benchmark_version f e) = refl
reason_of-reason_code signature_invalid = refl
reason_of-reason_code score_recomputation_mismatch = refl
reason_of-reason_code replay_detected = refl

pub reason_beq_iff : (r s : VerdictReason) → ((reason_code r == reason_code s) ≡ true) ↔ (r ≡ s)
reason_beq_iff r s = (
  λ h.
      sym (reason_of-reason_code r)
      ∙ (ap reason_of (eq_of_beq (reason_code r) (reason_code s) h) ∙ reason_of-reason_code s),
  λ p. beq_of_eq (reason_code r) (reason_code s) (ap reason_code p),
)

instance abbrev pub reason_eq : HasEq VerdictReason
reason_eq = record { beq = λ r s. reason_code r == reason_code s; beq_iff = reason_beq_iff }

pub record Verdict : Type 0 where
  pub state : ResultState
  pub reasons : List VerdictReason
  pub validator_version : String
