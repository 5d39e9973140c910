-- ===== src/Agent/Access.antt =====
-- crates/darcbench-agent/src/server.rs and config.rs: what a request proves about itself, and what that
-- lets it do. A header is its bytes, where it is there and is text.
use darcbench.Base.{
  ℕ, Bool, true, false, ◌&&◌, Option, none, some, String, List, [], ◌∷◌, length, if◌then◌else◌,
  nat_beq, any, ◌==◌, nat_eq, list_eq,
}
use darcbench.Base.Result.{Result, ok, err}
use darcbench.Base.Text.{codes, trim, after_prefix, split_at, split_once}
use darcbench.Protocol.External.Token.{difference_from}
pub mod Granted

-- The token's text.
pub record AccessToken : Type 0 where
  pub text : List ℕ

unfoldable pub token_matches : AccessToken → List ℕ → Bool
unfolding difference_from
token_matches t candidate =
    nat_beq (length t.text) (length candidate) && nat_beq (difference_from 0 t.text candidate) 0

pub data Auth : Type 0 where
  header ambient : Auth

pub record Headers : Type 0 where
  pub authorization : Option (List ℕ)
  pub cookie : Option (List ℕ)

abbrev pub session_cookie : List ℕ
session_cookie = codes "darcbench_session"

abbrev pub bearer : List ℕ
bearer = codes "Bearer "

unfoldable pub is_bearer : AccessToken → Option (List ℕ) → Bool
is_bearer t none = false
is_bearer t (some value) = elim (after_prefix bearer value) [
  | none ↦ false
  | some rest ↦ token_matches t (trim rest)
]

unfoldable pub is_session : AccessToken → List ℕ → Bool
is_session t part = elim (split_once b'=' (trim part)) [
  | none ↦ false
  | some (name, value) ↦ name == session_cookie && token_matches t value
]

unfoldable pub has_session : AccessToken → Option (List ℕ) → Bool
unfolding is_session
has_session t none = false
has_session t (some cookie) = any (is_session t) (split_at b';' cookie)

unfoldable pub has_query : AccessToken → Option (List ℕ) → Bool
has_query t none = false
has_query t (some candidate) = token_matches t candidate

unfoldable pub authenticate : Headers → Option (List ℕ) → AccessToken → Option Auth
unfolding is_bearer has_session has_query
authenticate headers query_token t =
    if is_bearer t headers.authorization
    then some header
    else if has_session t headers.cookie
    then some ambient
    else if has_query t query_token
    then some ambient
    else none

-- The status and the code of an answer; its message and its detail are left out.
pub record ApiError : Type 0 where
  pub status : ℕ
  pub code : String

abbrev pub csrf_protection : ApiError
csrf_protection = record { status = 403; code = "csrf_protection" }

abbrev pub unauthenticated : ApiError
unauthenticated = record { status = 401; code = "unauthenticated" }

permit : Bool → Option Auth → Result ApiError (Unit {0})
permit mutating (some header) = ok tt
permit true (some ambient) = err csrf_protection
permit false (some ambient) = ok tt
permit mutating none = err unauthenticated

unfoldable pub require : Headers → Option (List ℕ) → AccessToken → Bool → Result ApiError (Unit {0})
unfolding authenticate permit
require headers query_token t mutating = permit mutating (authenticate headers query_token t)
