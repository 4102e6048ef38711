-- ===== src/RmCan/Device/Sending.antt =====
-- The result of sendCANData when the socket is never ready.
use ota_backup.Base.{ℕ, zero, suc, ◌≡◌, refl, List, true, some, ℤ, pos, minus_one}
use ota_backup.RmCan.Link.{CanPacket, Link}
use ota_backup.RmCan.Device.{Selector, send_tries, send_can_data}

module _ {W : Type 0} (link : Link W) (selector : Selector W) where
  -- The world after so many selects.
  pub after_selects : ℕ → W → W
  after_selects zero w = w
  after_selects (suc n) w = after_selects n (selector.select_write w).2

  idle_tries :
      (n fuel : ℕ) (m : CanPacket) (id : ℕ) (ret : ℤ) (w : W)
      → ((v : W) → (selector.select_write v).0 ≡ pos 0)
      → send_tries link selector fuel (suc n) m id ret w
        ≡ (some (pos 0, after_selects (suc n) w), id)
  unfolding send_tries after_selects
  idle_tries zero fuel m id ret w never = rw (never w) refl
  idle_tries (suc n) fuel m id ret w never =
      rw (never w) (idle_tries n fuel m id (pos 0) (selector.select_write w).2 never)

  -- When `select` times out every time, sendCANData reports success, the result 0, after ten selects
  -- and without a single call of the layer below.
  pub send_can_data_idle :
      (fuel s_id d_id : ℕ) (p_data : List ℕ) (len id : ℕ) (w : W)
      → ((v : W) → (selector.select_write v).0 ≡ pos 0)
      → send_can_data link selector fuel true s_id d_id p_data len id w
        ≡ (some (pos 0, after_selects 10 w), id)
  unfolding send_can_data
  send_can_data_idle fuel s_id d_id p_data len id w never =
      idle_tries 9 fuel
        (record { priority = 3; src_id = s_id; dst_id = d_id; bytes = p_data; len = len }) id
        minus_one w never
