-- ===== src/Protocol/Run/Names.antt =====
-- The names of the profiles.
use darcbench.Base.{◌≡◌, refl, some, map, List, ℕ}
use darcbench.Base.Text.{codes}
use darcbench.Protocol.Run.{
  Profile, quick, standard, deep, endurance, read_only, web_only, custom, as_str, profile_from_str,
  match_profile, normal_byte,
}

-- Every profile is read back from the name that it is printed as, and no case of its letters and no
-- dash in place of an underscore matters: a text that normalises to the name reads as the profile.
profile_from_str-as_str :
    (p : Profile) (s : List ℕ) → map normal_byte s ≡ codes (as_str p) → profile_from_str s ≡ some p
unfolding profile_from_str as_str match_profile
profile_from_str-as_str quick s h = rw h refl
profile_from_str-as_str standard s h = rw h refl
profile_from_str-as_str deep s h = rw h refl
profile_from_str-as_str endurance s h = rw h refl
profile_from_str-as_str read_only s h = rw h refl
profile_from_str-as_str web_only s h = rw h refl
profile_from_str-as_str custom s h = rw h refl
