-- ===== src/RmCan/Receive/Maps.antt =====
-- The maps that hold the parts.
use ota_backup.Base.{ℕ, ◌≡◌, ◌≢◌, refl, List, [], ◌∷◌, none, some, arith}
use ota_backup.RmCan.Receive.{find, update, erase}

module _ {ℓ} {V : Type ℓ} where
  pub find-update_self : (k : ℕ) (v : V) (m : List (ℕ × V)) → find k (update k v m) ≡ some v
  unfolding find update
  find-update_self k v [] = ground arith
  find-update_self k v ((j, u) ∷ m) = ground (arith, find-update_self k v m)

  pub find-update_other :
      (k i : ℕ) (v : V) (m : List (ℕ × V)) → k ≢ i → find i (update k v m) ≡ find i m
  unfolding find update
  find-update_other k i v [] h = ground arith
  find-update_other k i v ((j, u) ∷ m) h = ground (arith, find-update_other k i v m h)

  pub find-erase_self : (k : ℕ) (m : List (ℕ × V)) → find k (erase k m) ≡ none
  unfolding find erase
  find-erase_self k [] = refl
  find-erase_self k ((j, u) ∷ m) = ground (arith, find-erase_self k m)

  pub find-erase_other : (k i : ℕ) (m : List (ℕ × V)) → k ≢ i → find i (erase k m) ≡ find i m
  unfolding find erase
  find-erase_other k i [] h = refl
  find-erase_other k i ((j, u) ∷ m) h = ground (arith, find-erase_other k i m h)
