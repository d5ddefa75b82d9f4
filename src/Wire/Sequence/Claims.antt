-- ===== src/Wire/Sequence/Claims.antt =====
-- The outbound sequence numbers: their order, their range, and that none comes twice.
use mathlib.Core.Path.{ap, ap₂, subst}
use hla4_rs.Prelude.{
  ℕ, zero, suc, ◌+◌, ◌%◌, ◌^◌, ◌<◌, ◌≡◌, ◌≢◌, refl, ◌⊎◌, inl, inr, true, false, not, ◌&&◌,
  Bool-cases, ◌++◌, none, List, [], ◌∷◌, some, arith, All, get_elem?,
}
use hla4_rs.Prelude.Int.{ℤ, pos, negsuc, eqb, eqb_iff}
use hla4_rs.Wire.Bytes.{IsI32}
use hla4_rs.Wire.MessageType.{no_sequence_number}
use hla4_rs.Wire.Sequence.{Attempt, claimed_of, next_of, claim_loop, claims}

-- The numbers from `c` on, modulo 2^31.
pub numbers : ℕ → ℕ → List ℤ
numbers zero c = []
numbers (suc n) c = pos (c % 2 ^ 31) ∷ numbers n (suc c)

next_of_mod : (c : ℕ) → next_of (claimed_of (pos (c % 2 ^ 31))) ≡ pos (suc c % 2 ^ 31)
unfolding next_of claimed_of
next_of_mod c = ground arith

claimed_of_pos : (c : ℕ) → claimed_of (pos c) ≡ pos c
unfolding claimed_of
claimed_of_pos c = refl

-- Successive claims count up from the counter and wrap from i32::MAX to 0.
pub claims-numbers : (n c : ℕ) → claims n (pos (c % 2 ^ 31)) ≡ numbers n c
unfolding claims numbers
claims-numbers zero c = refl
claims-numbers (suc n) c =
    ap₂ ◌∷◌ (claimed_of_pos (c % 2 ^ 31)) (rw (next_of_mod c) (claims-numbers n (suc c)))

get_elem?-numbers : (n c i : ℕ) → i < n → get_elem? (numbers n c) i ≡ some (pos ((c + i) % 2 ^ 31))
unfolding numbers
get_elem?-numbers zero c i h = elim h [ ]
get_elem?-numbers (suc n) c zero h = ground arith
get_elem?-numbers (suc n) c (suc i) h = ground (arith, get_elem?-numbers n (suc c) i)

-- From a counter in range, claim number `i` is the counter plus `i`, modulo 2^31.
pub get_elem?-claims :
    (n c i : ℕ)
    → c < 2 ^ 31
    → i < n
    → get_elem? (claims n (pos c)) i ≡ some (pos ((c + i) % 2 ^ 31))
get_elem?-claims n c i range h =
    let same : c % 2 ^ 31 ≡ c = omega arith in
    subst (λ k. get_elem? (claims n (pos k)) i ≡ some (pos ((c + i) % 2 ^ 31))) same
      (rw (claims-numbers n c) (get_elem?-numbers n c i h))

-- From a counter in range, two claims that are fewer than 2^31 claims apart differ.
pub claims_distinct :
    (n c i j : ℕ)
    → c < 2 ^ 31
    → i < j
    → j < n
    → j < i + 2 ^ 31
    → get_elem? (claims n (pos c)) i ≢ get_elem? (claims n (pos c)) j
claims_distinct n c i j range ij jn near e =
    ground (arith, get_elem?-claims n c i range, get_elem?-claims n c j range jn, e)

-- The value that an attempt expects: the counter as the attempt before it left it, or as loaded.
unfoldable pub expected : ℤ → List Attempt → ℤ
expected current [] = current
expected current (a ∷ before) = expected a.counter before

-- Each of the attempts fails: the counter is not what it expects, or the failure is spurious.
unfoldable pub AllFail : ℤ → List Attempt → Type 0
AllFail current [] = Unit {0}
AllFail current (a ∷ before) =
    ((a.counter ≢ current) ⊎ (a.spurious ≡ true)) × AllFail a.counter before

attempt_fails :
    (a : Attempt) (current : ℤ)
    → (eqb a.counter current && not a.spurious) ≡ false
    → (a.counter ≢ current) ⊎ (a.spurious ≡ true)
attempt_fails a current again = elim (Bool-cases a.spurious) [
  | inl e ↦ inr e
  | inr e ↦ inl (λ same. ground (arith, eqb_iff a.counter current))
]

-- A claim takes effect at one of the attempts. All attempts before it failed; it met the very value
-- that it expected and did not fail spuriously, so that its exchange succeeded; and the number that
-- was claimed and the value that was stored are those of the counter as it stood at that moment.
pub claim_loop_linearizes :
    (attempts : List Attempt) (current claimed stored : ℤ)
    → claim_loop attempts current ≡ some (claimed, stored)
    → (before : List Attempt) × (a : Attempt) × (after : List Attempt) × (attempts
        ≡ before ++ (a ∷ after))
      × AllFail current before
      × (a.counter ≡ expected current before)
      × (a.spurious ≡ false)
      × (claimed ≡ claimed_of a.counter)
      × (stored ≡ next_of claimed)
unfolding claim_loop expected AllFail
claim_loop_linearizes [] current claimed stored e = cc
claim_loop_linearizes (a ∷ rest) current claimed stored e =
    elim (Bool-cases (eqb a.counter current && not a.spurious)) [
      | inl done ↦ (
        [],
        a,
        rest,
        refl,
        tt,
        ground (arith, eqb_iff a.counter current),
        ground arith,
        ground (arith, eqb_iff a.counter current),
        ground arith,
      )
      | inr again ↦
          let retried : claim_loop rest a.counter ≡ some (claimed, stored) = ground arith in
          let (before, b, after, split, failed, met, sound, was, next) =
            claim_loop_linearizes rest a.counter claimed stored retried in
          (
            a ∷ before,
            b,
            after,
            ap (λ l. a ∷ l) split,
            (attempt_fails a current again, failed),
            met,
            sound,
            was,
            next,
          )
    ]

-- The loop ends: it does at the latest when an attempt meets the counter as the attempt before
-- left it, and does not fail spuriously.
pub claim_loop_ends :
    (before : List Attempt) (a b : Attempt) (after : List Attempt) (current : ℤ)
    → b.counter ≡ a.counter
    → b.spurious ≡ false
    → claim_loop (before ++ (a ∷ b ∷ after)) current ≢ none
unfolding claim_loop
claim_loop_ends [] a b after current same sound e = ground (arith, eqb_iff a.counter a.counter)
claim_loop_ends (x ∷ before) a b after current same sound e =
    elim (Bool-cases (eqb x.counter current && not x.spurious)) [
      | inl done ↦ ground arith
      | inr again ↦ claim_loop_ends before a b after x.counter same sound (ground arith)
    ]

IsI32-of_append :
    (before : List Attempt) (a : Attempt) (after : List Attempt)
    → All (λ b. IsI32 b.counter) (before ++ (a ∷ after))
    → IsI32 a.counter
IsI32-of_append [] a after h = h.0
IsI32-of_append (b ∷ before) a after h = IsI32-of_append before a after h.1

normal :
    (z : ℤ)
    → IsI32 z
    → (claimed_of z ≢ no_sequence_number)
      × (next_of (claimed_of z) ≢ no_sequence_number)
      × IsI32 (next_of (claimed_of z))
unfolding claimed_of next_of
normal (pos n) h = ground arith
normal (negsuc zero) h = ground arith
normal (negsuc (suc n)) h = ground arith

-- Whatever 32-bit values the counter takes, no claim hands out or stores the reserved number, and
-- what is stored fits 32 bits again.
pub claim_loop-ne-no_sequence_number :
    (attempts : List Attempt) (current claimed stored : ℤ)
    → All (λ a. IsI32 a.counter) attempts
    → claim_loop attempts current ≡ some (claimed, stored)
    → (claimed ≢ no_sequence_number) × (stored ≢ no_sequence_number) × IsI32 stored
claim_loop-ne-no_sequence_number attempts current claimed stored range e =
    let (before, a, after, split, failed, met, sound, was, next) =
      claim_loop_linearizes attempts current claimed stored e in
    let fits = IsI32-of_append before a after (subst (All (λ b. IsI32 b.counter)) split range) in
    let (p, q, r) = normal a.counter fits in (rw was p, rw (next, was) q, rw (next, was) r)
