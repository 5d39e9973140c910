-- ===== src/Tests/Texts.antt =====
-- Identifiers and names at concrete texts.
use darcbench.Base.{ℕ, ◌≡◌, refl, ◌↔◌, ◌&&◌, some, true, List, ◌++◌, length, all, leb}
use darcbench.Base.Result.{ok, is_ok}
use darcbench.Base.Text.{codes}
use darcbench.Protocol.Run.{Profile, profile_from_str}
use darcbench.Protocol.Ids.{module_id_from_str, run_id_from_str, is_lower_hex}
use darcbench.Protocol.Ids.Grammar.{scan, is_ok-module_id_from_str, run_id_from_str_iff}
use darcbench.Protocol.Run.{as_str}

as_str_read_only : codes (as_str Profile.read_only) ≡ codes "read_only"
unfolding as_str
as_str_read_only = refl

read_only_parsed : profile_from_str (codes "Read-Only") ≡ some Profile.read_only
unfolding profile_from_str
read_only_parsed = refl

is_ok-module_id_from_str_example :
    is_ok (module_id_from_str (codes "cpu..mixed"))
    ≡ (leb (length (codes "cpu..mixed")) 96 && scan 0 (codes "cpu..mixed"))
is_ok-module_id_from_str_example = is_ok-module_id_from_str (codes "cpu..mixed")

run_id_from_str_iff_example :
    (run_id_from_str (codes "run_0123456789abcdef0123456789abcdef") ≡ ok tt) ↔ (
      (body : List ℕ) × (codes "run_0123456789abcdef0123456789abcdef" ≡ codes "run_" ++ body)
      × (length body ≡ 32)
      × (all is_lower_hex body ≡ true))
run_id_from_str_iff_example = run_id_from_str_iff (codes "run_0123456789abcdef0123456789abcdef")
