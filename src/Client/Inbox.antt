-- ===== src/Client/Inbox.antt =====
-- The subjects that replies come to: `create_inbox_subject` of watermelon/src/client/mod.rs.
use watermelon.Prelude.{ℕ, zero, suc, ◌+◌, ◌-◌, ◌*◌, [], ◌∷◌, Bytes, ltb, if◌then◌else◌}
use watermelon.Subject.{Subject}

-- the number that hexadecimal digits spell behind `n`
unhex : ℕ → Bytes → ℕ
unhex n [] = n
unhex n (c ∷ s) = unhex (n * 16 + (if ltb c 58 then c - 48 else c - 87)) s

-- the numbers of at most so many digits
abbrev limit : ℕ → ℕ
limit zero = 1
limit (suc digits) = 16 * limit digits
