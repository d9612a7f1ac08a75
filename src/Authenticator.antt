-- ===== src/Authenticator.antt =====
-- watermelon-mini/src/proto/authenticator.rs: the credentials of a client, and how a credentials file
-- is read. A `ServerAddr` is its user name and password here.
pub mod Files
use watermelon.Prelude.{
  ℕ, Bool, ◌==◌, ◌&&◌, true, false, List, [], ◌∷◌, Option, none, some, Bytes, codes, starts_with,
  bytes_eq, if◌then◌else◌, Result, ok, err, ◌>>=◌, ok_or, map_err,
}
use watermelon.Subject.{onto_first}
use watermelon.Nkeys.{
  KeyCrates, KeyPair, KeyPairFromSeedError, from_encoded_seed, sign, show_public_key,
}

pub data AuthenticationMethod (K : Type 0) : Type 0 where
  user_and_password : Bytes → Bytes → AuthenticationMethod K
  creds : Bytes → KeyPair K → AuthenticationMethod K

pub data AuthenticationError : Type 0 where
  missing_nonce : AuthenticationError

pub data CredsParseError : Type 0 where
  truncated missing_jwt_closing missing_nkey_closing missing_jwt missing_nkey : CredsParseError
  invalid_key : KeyPairFromSeedError → CredsParseError

-- `Connect`, at a type of the settings that go beyond the standard
pub record Connect (N : Type 0) : Type 0 where
  pub verbose : Bool
  pub pedantic : Bool
  pub require_tls : Bool
  pub auth_token : Option Bytes
  pub username : Option Bytes
  pub password : Option Bytes
  pub client_name : Option Bytes
  pub client_lang : Bytes
  pub client_version : Bytes
  pub protocol : ℕ
  pub echo : Bool
  pub signature : Option Bytes
  pub jwt : Option Bytes
  pub supports_no_responders : Bool
  pub supports_headers : Bool
  pub nkey : Option Bytes
  pub non_standard : N

-- `str::lines`: a line feed ends a line, with the carriage return before it
unfoldable pub str_lines : Bytes → List Bytes
unfolding onto_first
str_lines [] = []
str_lines (c ∷ s) =
    let rest = str_lines s in
    if c == 10
    then [] ∷ rest
    else if c == 13 && starts_with (10 ∷ []) s
    then rest
    else onto_first c rest

abbrev pub begin_jwt : Bytes
begin_jwt = codes "-----BEGIN NATS USER JWT-----"

abbrev pub end_jwt : Bytes
end_jwt = codes "------END NATS USER JWT------"

abbrev pub begin_seed : Bytes
begin_seed = codes "-----BEGIN USER NKEY SEED-----"

abbrev pub end_seed : Bytes
end_seed = codes "------END USER NKEY SEED------"

-- What a line is to the loop.
pub data Marker : Type 0 where
  opens_jwt opens_seed filler : Marker

unfoldable pub marker : Bytes → Marker
marker line =
    if bytes_eq line begin_jwt
    then opens_jwt
    else if bytes_eq line begin_seed
    then opens_seed
    else filler

-- the loop over the lines, with what it has found
unfoldable pub scan :
    List Bytes → Option Bytes → Option Bytes → Result CredsParseError (Option Bytes × Option Bytes)
unfolding marker
scan [] jwt secret = ok (jwt, secret)
scan (line ∷ []) jwt secret = elim (marker line) [
  | filler ↦ ok (jwt, secret)
  | opens_jwt ↦ err truncated
  | opens_seed ↦ err truncated
]
scan (line ∷ value ∷ []) jwt secret = elim (marker line) [
  | filler ↦ scan (value ∷ []) jwt secret
  | opens_jwt ↦ err truncated
  | opens_seed ↦ err truncated
]
scan (line ∷ value ∷ closing ∷ lines) jwt secret = elim (marker line) [
  | filler ↦ scan (value ∷ closing ∷ lines) jwt secret
  | opens_jwt ↦ elim (bytes_eq closing end_jwt) [
    | true ↦ scan lines (some value) secret
    | false ↦ err missing_jwt_closing
  ]
  | opens_seed ↦ elim (bytes_eq closing end_seed) [
    | true ↦ scan lines jwt (some value)
    | false ↦ err missing_nkey_closing
  ]
]

unfoldable pub try_from_addr :
    {K : Type 0} → Option Bytes → Option Bytes → Option (AuthenticationMethod K)
try_from_addr (some username) (some password) = some (user_and_password username password)
try_from_addr _ _ = none

module _ {K : Type 0} (crates : KeyCrates K) where
  -- behind the loop
  unfoldable pub assemble :
      Option Bytes × Option Bytes → Result CredsParseError (AuthenticationMethod K)
  assemble (jwt, secret) = do
    found ← ok_or jwt missing_jwt
    seed ← ok_or secret missing_nkey
    nkey ← map_err invalid_key (from_encoded_seed crates seed)
    ok (creds found nkey)

  unfoldable pub from_creds : Bytes → Result CredsParseError (AuthenticationMethod K)
  unfolding str_lines scan assemble
  from_creds contents = do found ← scan (str_lines contents) none none; assemble found

  -- The nonce is that of the `ServerInfo`.
  unfoldable pub prepare_for_auth :
      {N : Type 0}
      → AuthenticationMethod K
      → Option Bytes
      → Connect N
      → Result AuthenticationError (Connect N)
  prepare_for_auth (user_and_password username password) given connect =
      ok (record connect { username = some username; password = some password })
  prepare_for_auth (creds jwt nkey) given connect = do
    text ← ok_or given missing_nonce
    ok (record connect {
      jwt = some jwt;
      nkey = some (show_public_key crates nkey);
      signature = some (sign crates nkey text);
    })
