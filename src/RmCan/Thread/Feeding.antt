-- ===== src/RmCan/Thread/Feeding.antt =====
-- The thread hands on every packet.
use ota_backup.Base.{
  ℕ, suc, ◌≡◌, refl, Bool, ◌&&◌, List, [], ◌∷◌, true, false, ℤ, pos, negsuc, is_positive, All,
}
use ota_backup.Flexcan.Packet.{FlexcanPacket}
use ota_backup.RmCan.Receive.{RobotIds, Receiver, take_packet, recv_from_can}
use ota_backup.RmCan.Receive.Collect.{deliver}
use ota_backup.RmCan.Thread.{Turn, is_ready, thread_recv}

-- What the device gives over the turns, from a world on: nothing where `select` times out, fails or does
-- not set the socket; where it does, the next packet, or a read that fails, which gives none.
pub data Gives {W : Type 0} (read : W → ℤ × FlexcanPacket × W)
    : List Turn → List FlexcanPacket → W → Type 0 where
  ended : {w : W} → Gives read [] [] w
  timed_out :
      {t : Turn} {ts : List Turn} {ps : List FlexcanPacket} {w : W}
      → t.selected ≡ pos 0
      → Gives read ts ps w
      → Gives read (t ∷ ts) ps w
  select_failed :
      {t : Turn} {ts : List Turn} {ps : List FlexcanPacket} {w : W} {n : ℕ}
      → t.selected ≡ negsuc n
      → Gives read ts ps w
      → Gives read (t ∷ ts) ps w
  not_set :
      {t : Turn} {ts : List Turn} {ps : List FlexcanPacket} {w : W}
      → t.is_set ≡ false
      → Gives read ts ps w
      → Gives read (t ∷ ts) ps w
  read_failed :
      {t : Turn} {ts : List Turn} {ps : List FlexcanPacket} {p : FlexcanPacket} {w w' : W} {n : ℕ}
      → t.selected ≡ pos (suc n)
      → t.is_set ≡ true
      → read w ≡ (negsuc 0, p, w')
      → Gives read ts ps w'
      → Gives read (t ∷ ts) ps w
  packet :
      {t : Turn} {ts : List Turn} {ps : List FlexcanPacket} {p : FlexcanPacket} {w w' : W} {n : ℕ}
      → t.selected ≡ pos (suc n)
      → t.is_set ≡ true
      → read w ≡ (pos 0, p, w')
      → Gives read ts ps w'
      → Gives read (t ∷ ts) (p ∷ ps) w

abbrev pub Runs : Turn → Type 0
Runs t = (t.running ≡ true) × (t.memory ≡ true)

-- While it runs and memory is at hand, the thread takes exactly the packets that the device gives, as
-- `deliver` takes them, whatever time-outs, failures of `select`, turns without the socket and failed
-- reads lie between.
pub thread_recv-eq-deliver :
    {W : Type 0} (ids : RobotIds) (read : W → ℤ × FlexcanPacket × W) (ts : List Turn)
    (ps : List FlexcanPacket) (r : Receiver) (w : W)
    → All Runs ts
    → Gives read ts ps w
    → (thread_recv ids read ts r w).0 ≡ deliver ids ps r
unfolding thread_recv recv_from_can deliver is_ready
thread_recv-eq-deliver ids read _ _ r w h ended = refl
thread_recv-eq-deliver ids read (t ∷ ts) ps r w h (timed_out s g) =
    rw (h.0.0, s) (thread_recv-eq-deliver ids read ts ps r w h.1 g)
thread_recv-eq-deliver ids read (t ∷ ts) ps r w h (select_failed s g) =
    rw (h.0.0, s) (thread_recv-eq-deliver ids read ts ps r w h.1 g)
thread_recv-eq-deliver ids read (t ∷ ts) ps r w h (not_set s g) =
    rw (h.0.0, s, no_bit (is_positive t.selected)) (thread_recv-eq-deliver ids read ts ps r w h.1 g)
  where
    no_bit : (b : Bool) → (b && false) ≡ false
    no_bit true = refl
    no_bit false = refl
thread_recv-eq-deliver ids read (t ∷ ts) ps r w h (read_failed {w' = w'} s i given g) =
    rw (h.0.0, s, i, given) (thread_recv-eq-deliver ids read ts ps r w' h.1 g)
thread_recv-eq-deliver ids read (t ∷ ts) (p ∷ ps) r w h (packet {w' = w'} s i given g) =
    rw (h.0.0, h.0.1, s, i, given)
      (thread_recv-eq-deliver ids read ts ps (take_packet ids true p r).1 w' h.1 g)
