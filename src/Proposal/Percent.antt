-- ===== src/Proposal/Percent.antt =====
-- The float expression `(vote_count / total_members) * 100 >= threshold` of
-- proposal/core/auto_approval.py, in IEEE 754 double arithmetic: both operations round to 53
-- significant bits, ties to even. A double is a mantissa over a power of two.
-- Doubles `num` until the quotient has 53 bits; 128 rounds are enough for denominators below
-- 2 ^ 75, far above any count of members.
use madcamp_w2_decision_make.Prelude.{
  ℕ, ◌≡◌, Bool, ◌*◌, suc, ◌/◌, ◌%◌, ◌^◌, false, ◌+◌, leb, zero, true, refl, if◌then◌else◌, ltb,
}

unfoldable pub scale : ℕ → ℕ → ℕ → ℕ → ℕ × ℕ
scale zero num den shift = (num, shift)
scale (suc fuel) num den shift =
    let more = scale fuel (num * 2) den (shift + 1) in
    if leb 4503599627370496 (num / den) then (num, shift) else more

-- The integer nearest to num / den, ties to the even one.
unfoldable pub round_half_even : ℕ → ℕ → ℕ
round_half_even num den =
    let q = num / den in
    let r = num % den in if ltb (r * 2) den then q else if ltb den (r * 2) then q + 1 else q + q % 2

-- The double nearest to num / den: (m, k) stands for m / 2 ^ k.
unfoldable pub to_double : ℕ → ℕ → ℕ × ℕ
unfolding scale round_half_even
to_double zero den = (0, 0)
to_double (suc n) den =
    let (num, shift) = scale 128 (suc n) den 0 in (round_half_even num den, shift)

-- `(vote_count / total_members) * 100`, for total_members > 0.
unfoldable pub vote_percent : ℕ → ℕ → ℕ × ℕ
unfolding to_double
vote_percent vote_count total_members =
    let (m, shift) = to_double vote_count total_members in to_double (m * 100) (2 ^ shift)

-- `vote_percent >= approval_threshold_percent`
unfoldable pub reaches : ℕ → ℕ → ℕ → Bool
unfolding vote_percent
reaches vote_count total_members threshold =
    let (m, shift) = vote_percent vote_count total_members in leb (threshold * 2 ^ shift) m

half_of_members : reaches 5 10 50 ≡ true
unfolding reaches
half_of_members = refl

-- 29 of 100 is less than 29 percent: 0.29 * 100 is 28.999999999999996.
twenty_nine_of_hundred : reaches 29 100 29 ≡ false
unfolding reaches
twenty_nine_of_hundred = refl
