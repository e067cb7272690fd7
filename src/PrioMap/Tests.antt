-- ===== src/PrioMap/Tests.antt =====
-- The theorems on the priority maps, for words of eight bits.
use mark.Prelude.{◌≤◌, ◌≡◌, refl, true, false, not, ◌&&◌, ◌||◌, arith, ◌==◌}
use mark.PrioMap.LevelOne
use mark.PrioMap.LevelOne.{MapL1}
use mark.PrioMap.LevelTwo
use mark.PrioMap.LevelTwo.{MapL2, IsConsistent}
use mark.PrioMap.LevelTwo.Members
use mark.PrioMap.LevelTwo.Members.{empty-IsConsistent, set-IsConsistent, clear-IsConsistent}
use mark.PrioMap.LevelTwo.Highest

abbrev two_set : MapL1
two_set = record { map = 20; undefined = false }

word_map_example :
    (((LevelOne.set 3 2 two_set).undefined ≡ false)
      × ((LevelOne.clear 3 2 two_set).undefined ≡ false))
    × ((LevelOne.member 3 (LevelOne.set 3 2 two_set) 4 ≡ (4 == 2 || LevelOne.member 3 two_set 4))
        × (LevelOne.member 3 (LevelOne.clear 3 2 two_set) 4
            ≡ (not (4 == 2) && LevelOne.member 3 two_set 4)))
    × ((LevelOne.highest_priority 3 two_set ≡ 5 → LevelOne.member 3 two_set 4 ≡ true)
        × (LevelOne.highest_priority 3 two_set ≤ 4 → LevelOne.member 3 two_set 4 ≡ false))
word_map_example =
    LevelOne.word_map 3 2 4 two_set (omega arith) (omega arith) (omega arith) (omega arith) refl

-- The bit 40 of a word of 64 bits is out of the range of an `int`.
out_of_range : (LevelOne.set 6 40 two_set).undefined ≡ true
unfolding LevelOne.set
out_of_range = refl

abbrev one_set : MapL2
one_set = LevelTwo.set 3 42 LevelTwo.empty

one_set-IsConsistent : IsConsistent 3 one_set
one_set-IsConsistent = set-IsConsistent 3 42 LevelTwo.empty (omega arith) (empty-IsConsistent 3)

array_updates_example :
    (IsConsistent 3 (LevelTwo.set 3 7 one_set) × IsConsistent 3 (LevelTwo.clear 3 7 one_set))
    × (LevelTwo.member 3 (LevelTwo.set 3 7 one_set) 42 ≡ (42 == 7 || LevelTwo.member 3 one_set 42))
    × (LevelTwo.member 3 (LevelTwo.clear 3 7 one_set) 42
        ≡ (not (42 == 7) && LevelTwo.member 3 one_set 42))
array_updates_example =
    Members.array_updates 3 7 42 one_set (omega arith) (omega arith) one_set-IsConsistent
