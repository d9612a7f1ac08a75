-- ===== src/Subject.antt =====
-- watermelon-proto/src/subject.rs. `from_dangerous_value` is modelled as it is built for release,
-- where it checks nothing; `from_str` and the two `try_from` differ only in the string type.
pub mod Grammar
use watermelon.Prelude.{
  ℕ, ◌==◌, ◌||◌, ◌&&◌, not, Bool, false, List, [], ◌∷◌, Bytes, is_empty, if◌then◌else◌, ltb, length,
  starts_with, bytes_eq, Result, ok, err, ◌>>=◌,
}

pub record Subject : Type 0 where
  pub text : Bytes

pub data SubjectValidateError : Type 0 where
  empty illegal_character broken_token broken_wildcard : SubjectValidateError

-- the bytes that delimit a control line or its arguments
abbrev pub is_delimiter : ℕ → Bool
is_delimiter b = b == 32 || b == 9 || b == 13 || b == 10

-- the loop `for b in subject.bytes()`: whether it returns early
unfoldable pub has_delimiter : Bytes → Bool
has_delimiter [] = false
has_delimiter (b ∷ s) = is_delimiter b || has_delimiter s

unfoldable pub onto_first : ℕ → List Bytes → List Bytes
onto_first c [] = (c ∷ []) ∷ []
onto_first c (token ∷ tokens) = (c ∷ token) ∷ tokens

-- `str::split('.')`
unfoldable pub split_dots : Bytes → List Bytes
unfolding onto_first
split_dots [] = [] ∷ []
split_dots (c ∷ s) = let rest = split_dots s in if c == b'.' then [] ∷ rest else onto_first c rest

-- `token.contains("..")`
unfoldable pub contains_dots : Bytes → Bool
contains_dots [] = false
contains_dots (c ∷ s) = starts_with (b'.' ∷ b'.' ∷ []) (c ∷ s) || contains_dots s

abbrev pub is_wildcard : ℕ → Bool
is_wildcard c = c == b'*' || c == b'>'

-- `token.contains(['*', '>'])`
unfoldable pub contains_wildcard : Bytes → Bool
contains_wildcard [] = false
contains_wildcard (c ∷ s) = is_wildcard c || contains_wildcard s

-- the body of the loop over the tokens; the flag is `tokens.peek().is_some()`
unfoldable pub check_token : Bytes → Bool → Result SubjectValidateError (Unit {0})
unfolding contains_dots contains_wildcard
check_token token more =
    if is_empty token || contains_dots token
    then err broken_token
    else if ltb 1 (length token) && contains_wildcard token
    then err broken_wildcard
    else if bytes_eq token (b'>' ∷ []) && more
    then err broken_wildcard
    else ok tt

unfoldable pub check_tokens : List Bytes → Result SubjectValidateError (Unit {0})
unfolding check_token
check_tokens [] = ok tt
check_tokens (token ∷ tokens) = do
  _ ← check_token token (not (is_empty tokens))
  check_tokens tokens

unfoldable pub validate_subject : Bytes → Result SubjectValidateError (Unit {0})
unfolding has_delimiter split_dots check_tokens
validate_subject subject =
    if is_empty subject
    then err empty
    else if has_delimiter subject
    then err illegal_character
    else check_tokens (split_dots subject)

unfoldable pub from_dangerous_value : Bytes → Subject
from_dangerous_value value = record { text = value }

unfoldable pub try_from : Bytes → Result SubjectValidateError Subject
unfolding validate_subject from_dangerous_value
try_from value = do _ ← validate_subject value; ok (from_dangerous_value value)
