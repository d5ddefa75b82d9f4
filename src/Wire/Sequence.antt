-- ===== src/Wire/Sequence.antt =====
-- crates/hla-wire/src/framing.rs: `claim_next_outbound_seq`. The counter is an AtomicI32; the
-- compare-exchange loop is read against what it meets at each attempt.
pub mod Claims
use hla4_rs.Prelude.{
  ℕ, zero, suc, ◌+◌, Bool, not, ◌&&◌, List, [], ◌∷◌, Option, none, some, if◌then◌else◌,
}
use hla4_rs.Prelude.Int.{ℤ, pos, negsuc, eqb}
use hla4_rs.Wire.MessageType.{no_sequence_number, initial_sequence_number, max_sequence_number}

-- z + 1, where the sum is in range.
abbrev pub add_one : ℤ → ℤ
add_one (pos n) = pos (n + 1)
add_one (negsuc zero) = pos 0
add_one (negsuc (suc n)) = negsuc n

-- The number that a counter value stands for.
unfoldable pub claimed_of : ℤ → ℤ
claimed_of current = if eqb current no_sequence_number then initial_sequence_number else current

-- The value stored after it.
unfoldable pub next_of : ℤ → ℤ
next_of claimed =
    if eqb claimed max_sequence_number then initial_sequence_number else add_one claimed

-- What an attempt of `compare_exchange_weak` meets: the counter, and whether it fails spuriously.
pub record Attempt : Type 0 where
  pub counter : ℤ
  pub spurious : Bool

-- The loop over the attempts, from the value that was loaded. The result is the claimed number and
-- the stored value; `none` says that the attempts ran out before one succeeded.
unfoldable pub claim_loop : List Attempt → ℤ → Option (ℤ × ℤ)
unfolding claimed_of next_of
claim_loop [] current = none
claim_loop (a ∷ rest) current =
    let retry = claim_loop rest a.counter in
    if eqb a.counter current && not a.spurious
    then some (claimed_of current, next_of (claimed_of current))
    else retry

-- The claims in the order of their successful exchanges: each reads what the one before stored.
unfoldable pub claims : ℕ → ℤ → List ℤ
unfolding claimed_of next_of
claims zero counter = []
claims (suc n) counter = claimed_of counter ∷ claims n (next_of (claimed_of counter))
