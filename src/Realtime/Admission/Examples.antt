-- ===== src/Realtime/Admission/Examples.antt =====
-- The theorems about the ceilings at concrete inputs.
use aul_private_location.Base.{
  ◌≡◌, refl, true, false, ◌≤◌, ◌<◌, ◌⊎◌, ℕ, List, [], ◌∷◌, length, has, get, empty,
}
use aul_private_location.Realtime.Admission.{new_conns, admit, release}
use aul_private_location.Realtime.Admission.Ceilings.{
  Holds, new_conns-Holds, admit-Holds, release-Holds, count,
}

abbrev none_open : List ℕ
none_open = []

admit-Holds_example :
    ((admit new_conns 5).1 ≡ true
      → (length none_open < new_conns.max_total)
        × (count 5 none_open < new_conns.max_per_user)
        × Holds (admit new_conns 5).0 (5 ∷ []))
    × ((admit new_conns 5).1 ≡ false
        → (new_conns.max_total ≤ length none_open) ⊎ (new_conns.max_per_user ≤ count 5 none_open))
    × ((admit new_conns 5).1 ≡ false → (admit new_conns 5).0 ≡ new_conns)
admit-Holds_example = admit-Holds new_conns none_open 5 new_conns-Holds

one_open : Holds (admit new_conns 5).0 (5 ∷ [])
unfolding admit new_conns get empty
one_open = ((admit-Holds new_conns none_open 5 new_conns-Holds).0 refl).2

release-Holds_example : Holds (release (admit new_conns 5).0 5) []
unfolding has
release-Holds_example = release-Holds (admit new_conns 5).0 (5 ∷ []) 5 one_open refl
