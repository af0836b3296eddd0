-- ===== src/Addem/Tests.antt =====
-- project3/addem.cpp: runs, and the theorems at them.
use mathlib.Core.List.{Perm}
use mathlib.Core.List.Perm
use cs3013_operating_systems.Prelude.{ℕ, ◌-◌, ◌≡◌, refl, List, [], ◌∷◌, arith}
use cs3013_operating_systems.Prelude.Int.{ℤ, pos}
use cs3013_operating_systems.Addem.{Msg, replies, full_sum, main}
use cs3013_operating_systems.Addem.Correct.{promised, main-promised}

abbrev blank : Msg
blank = record { i_from = 0; type = 0; value1 = pos 0; value2 = pos 0 }

-- An `atoi` for one digit.
abbrev digit : List ℕ → ℤ
digit [] = pos 0
digit (c ∷ cs) = pos (c - b'0')

same_order : (ms : List Msg) → Perm ms ms
same_order ms = Perm.refl ms

main-promised_example :
    main digit blank (λ ms. ms) ((b'3' ∷ []) ∷ (b'9' ∷ []) ∷ []) ≡ promised (pos 3) 9
main-promised_example =
    main-promised digit blank (λ ms. ms) (b'3' ∷ []) (b'9' ∷ []) 9 same_order refl (omega arith)

full_sum_10 : full_sum (pos 0) (replies blank (pos 10) 3) ≡ pos 55
unfolding full_sum replies
full_sum_10 = refl
