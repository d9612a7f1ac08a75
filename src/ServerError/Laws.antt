-- ===== src/ServerError/Laws.antt =====
-- `ServerError::parse` of watermelon-proto/src/server_error.rs does not see the case of letters.
use watermelon.Prelude.{
  ℕ, zero, suc, [], ◌∷◌, Bytes, codes, bytes_eq, to_lower, length, take, map, ◌≡◌, refl, sym, ap,
  ◌∙◌,
}
use watermelon.ServerError.{eq_ignore_ascii_case, matches_prefix, classify}

take-map : (n : ℕ) (s : Bytes) → map to_lower (take n s) ≡ take n (map to_lower s)
take-map zero s = refl
take-map (suc n) [] = refl
take-map (suc n) (c ∷ s) = ap (◌∷◌ (to_lower c)) (take-map n s)

length-map : (s : Bytes) → length (map to_lower s) ≡ length s
length-map [] = refl
length-map (c ∷ s) = ap suc (length-map s)

same_length : (a b : Bytes) → map to_lower a ≡ map to_lower b → length a ≡ length b
same_length a b h = sym (length-map a) ∙ ap length h ∙ length-map b

eq_ignore_ascii_case-lower :
    (a b needle : Bytes)
    → map to_lower a ≡ map to_lower b
    → eq_ignore_ascii_case a needle ≡ eq_ignore_ascii_case b needle
unfolding eq_ignore_ascii_case
eq_ignore_ascii_case-lower a b needle h = ap (λ t. bytes_eq t (map to_lower needle)) h

matches_prefix-lower :
    (a b needle : Bytes)
    → map to_lower a ≡ map to_lower b
    → matches_prefix a needle ≡ matches_prefix b needle
unfolding matches_prefix
matches_prefix-lower a b needle h =
    let n = length needle in
    let front : map to_lower (take n a) ≡ map to_lower (take n b) =
      take-map n a ∙ ap (take n) h ∙ sym (take-map n b) in
    rw (same_length a b h, eq_ignore_ascii_case-lower (take n a) (take n b) needle front) refl

-- Two messages that differ only in the case of ASCII letters are the same error.
pub classify-lower : (a b : Bytes) → map to_lower a ≡ map to_lower b → classify a ≡ classify b
unfolding classify
classify-lower a b h =
    let same : (needle : Bytes) → eq_ignore_ascii_case a needle ≡ eq_ignore_ascii_case b needle =
      λ needle. eq_ignore_ascii_case-lower a b needle h in
    rw (
      same (codes "Invalid Subject"),
      matches_prefix-lower a b (codes "Permissions Violation for Publish") h,
      matches_prefix-lower a b (codes "Permissions Violation for Subscription") h,
      same (codes "Unknown Protocol Operation"),
      same (codes "Attempted To Connect To Route Port"),
      same (codes "Authorization Violation"),
      same (codes "Authorization Timeout"),
      same (codes "Invalid Client Protocol"),
      same (codes "Maximum Control Line Exceeded"),
      same (codes "Parser Error"),
      same (codes "Secure Connection - TLS Required"),
      same (codes "Stale Connection"),
      same (codes "Maximum Connections Exceeded"),
      same (codes "Slow Consumer"),
      same (codes "Maximum Payload Violation"),
    )
