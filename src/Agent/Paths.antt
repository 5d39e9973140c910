-- ===== src/Agent/Paths.antt =====
-- crates/darcbench-agent/src/config.rs and proxy.rs: what may become part of a path under the state
-- directory, of the configuration of a web server, or a port. A text is its bytes; a path of the
-- standard library is the list of its components, to which `push` adds one that has no slash.
use darcbench.Base.{
  ℕ, Bool, true, false, not, ◌&&◌, ◌||◌, Option, some, List, [], ◌∷◌, ◌++◌, any, all, length,
  is_nil, last?, if◌then◌else◌, ltb, nat_beq, ◌==◌, nat_eq, list_eq, option_eq,
}
use darcbench.Base.Result.{Result, ok, err, check, ◌>>=◌, ◌>>◌}
use darcbench.Base.Text.{codes, is_lower, is_upper, is_digit, after_prefix}
pub mod Safe

abbrev pub Text : Type 0
Text = List ℕ

pub data PathError : Type 0 where
  illegal_component : Text → PathError
  escape : PathError

abbrev pub has_byte : ℕ → Text → Bool
has_byte b s = any (λ (c : ℕ). nat_beq c b) s

unfoldable pub is_illegal : Text → Bool
is_illegal c =
    is_nil c
    || c == codes "."
    || c == codes ".."
    || has_byte b'/' c
    || has_byte 92 c
    || has_byte 0 c

-- `Path::starts_with`, by components
unfoldable pub starts_with : List Text → List Text → Bool
starts_with path [] = true
starts_with [] (r ∷ root) = false
starts_with (p ∷ path) (r ∷ root) = p == r && starts_with path root

unfoldable pub push_all : List Text → List Text → Result PathError (List Text)
unfolding is_illegal
push_all path [] = ok path
push_all path (c ∷ cs) =
    let rest = push_all (path ++ (c ∷ [])) cs in
    if is_illegal c then err (illegal_component c) else rest

unfoldable pub join : List Text → List Text → Result PathError (List Text)
unfolding push_all starts_with
join root components = do
  path ← push_all root components
  check (starts_with path root) escape
  ok path

abbrev pub forbidden_ports : List ℕ
forbidden_ports = 80 ∷ 443 ∷ 22 ∷ 21 ∷ 25 ∷ 3306 ∷ 5432 ∷ 6379 ∷ 8443 ∷ []

pub data PortError : Type 0 where
  ephemeral : PortError
  reserved : ℕ → PortError
  privileged : ℕ → PortError

unfoldable pub validate_port : ℕ → Result PortError ℕ
validate_port port = do
  check (not (nat_beq port 0)) ephemeral
  check (not (any (λ (p : ℕ). nat_beq p port) forbidden_ports)) (reserved port)
  check (not (ltb port 1024)) (privileged port)
  ok port

pub data LocationError : Type 0 where
  no_slash too_long bad_byte dots : LocationError

abbrev pub is_location_byte : ℕ → Bool
is_location_byte c =
    is_lower c
    || is_upper c
    || is_digit c
    || any (λ (b : ℕ). nat_beq b c) (b'/' ∷ b'-' ∷ b'_' ∷ b'.' ∷ b'~' ∷ [])

-- `contains("..")`
abbrev pub has_dots : Text → Bool
has_dots [] = false
has_dots (c ∷ []) = false
has_dots (c ∷ d ∷ s) = (nat_beq c b'.' && nat_beq d b'.') || has_dots (d ∷ s)

abbrev pub first_is_slash : Text → Bool
first_is_slash [] = false
first_is_slash (c ∷ s) = nat_beq c b'/'

abbrev pub last_is_slash : Text → Bool
last_is_slash [] = false
last_is_slash (c ∷ []) = nat_beq c b'/'
last_is_slash (c ∷ d ∷ s) = last_is_slash (d ∷ s)

unfoldable pub validate_location : Text → Result LocationError Text
validate_location location = do
  check (first_is_slash location) no_slash
  check (not (ltb 128 (length location))) too_long
  check (all is_location_byte location) bad_byte
  check (not (has_dots location)) dots
  ok (if last_is_slash location then location else location ++ (b'/' ∷ []))
