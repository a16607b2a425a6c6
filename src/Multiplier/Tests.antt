-- ===== src/Multiplier/Tests.antt =====
-- Four bits in two stages: -3 times 5, then 15 times 15 without signs, while the output blocks.
use lizard.Prelude.{
  ℕ, ◌≤◌, ◌<◌, ◌≡◌, refl, arith, true, false, Option, none, some, List, [], ◌∷◌, ◌++◌,
}
use lizard.Prelude.{ap}
use lizard.Prelude.Int.{negsuc}
use lizard.Pymtl.{wrap}
use lizard.Pymtl.Standard.{standard}
use lizard.Multiplier.{MulArgs, MulState, MulCalls, mul_step, mul_cycle, move}
use lizard.Multiplier.Product.{all_accepted, all_taken, final, in_flight, IsAllowed, mul_fifo}

abbrev idle : MulState
idle = record {
  stages =
      record { valid = false; work = record { val = 0; src1 = 0; src2 = 0; sign = false } } ∷ [];
  last_valid = false;
  last_val = 0;
}

abbrev first : MulArgs
first = record { src1 = 0b1101; src2 = 0b0101; src1_signed = true; src2_signed = true }

abbrev second : MulArgs
second = record { src1 = 0b1111; src2 = 0b1111; src1_signed = false; src2_signed = false }

abbrev calls : List MulCalls
calls =
    record { mult = some first; take = false }
    ∷ record { mult = some second; take = false }
    ∷ record { mult = none; take = false }
    ∷ record { mult = none; take = true }
    ∷ record { mult = none; take = true }
    ∷ []

two_le : 2 ≤ 4
two_le = omega arith

taken_test : all_taken 3 2 8 two_le idle calls ≡ wrap 8 (negsuc 14) ∷ 225 ∷ []
unfolding all_taken mul_step move
taken_test = refl

calls-IsAllowed : IsAllowed 3 2 8 two_le idle calls
unfolding mul_step mul_cycle move
calls-IsAllowed = (
  λ e. absurd cc,
  λ a e. (omega (arith, ap src1_of e), omega (arith, ap src2_of e)),
  (
    λ e. absurd cc,
    λ a e. (omega (arith, ap src1_of e), omega (arith, ap src2_of e)),
    (λ e. refl, no_call, (λ e. refl, no_call, (λ e. refl, no_call, tt))),
  ),
)
  where
    src1_of : Option MulArgs → ℕ
    src1_of o = elim o [ some a ↦ a.src1 | none ↦ 0 ]

    src2_of : Option MulArgs → ℕ
    src2_of o = elim o [ some a ↦ a.src2 | none ↦ 0 ]

    no_call : (a : MulArgs) → ◌≡◌ {A = Option MulArgs} none (some a) → (a.src1 < 16) × (a.src2 < 16)
    no_call a e = absurd cc

mul_fifo_example :
    all_taken 3 2 8 two_le idle calls ++ in_flight 3 2 8 two_le (final 3 2 8 two_le idle calls)
    ≡ in_flight 3 2 8 two_le idle ++ all_accepted 3 2 8 two_le idle calls
mul_fifo_example = mul_fifo 3 2 8 two_le idle calls (refl, ((λ e. absurd cc), tt)) calls-IsAllowed
