-- ===== src/Flexcan/Packet/Ident.antt =====
-- The identifier as a number: each field has its own bits.
use ota_backup.Base.{
  ℕ, ◌+◌, ◌*◌, ◌/◌, ◌%◌, ◌^◌, ◌<◌, ◌≡◌, ◌∙◌, refl, bit_and, bit_or, arith, bit_and_low, and_window,
  or_add, or_between,
}
use ota_backup.Flexcan.Packet.{
  FlexcanPacket, base_id, data_to_priority, data_to_s_sys, data_to_d_sys, data_to_s_smod,
  data_to_d_smod, data_to_sum, id_to_priority, id_to_sum, id_to_s_module, id_to_d_module,
}

-- Priority, system of the source and the target, packet sum, module of the source and the target.
abbrev pub ident : ℕ → ℕ → ℕ → ℕ → ℕ
ident pr s d sum =
    pr * 2 ^ 26 + s / 16 * 2 ^ 22 + d / 16 * 2 ^ 18 + sum * 2 ^ 8 + s % 16 * 2 ^ 4 + d % 16

priority_value : (p : ℕ) → data_to_priority p ≡ p % 8 * 2 ^ 26
unfolding data_to_priority
priority_value p = omega (arith, bit_and_low 3 p)

sys_value : (s : ℕ) → s < 256 → bit_and s 0xF0 ≡ s / 16 * 16
sys_value s h = omega (arith, and_window 4 4 s)

smod_value : (s : ℕ) → bit_and s 0x0F ≡ s % 16
smod_value s = bit_and_low 4 s

or_chain :
    (p s d t u : ℕ)
    → s < 16
    → d < 16
    → t < 16
    → u < 16
    → bit_or (bit_or (bit_or (bit_or (p * 2 ^ 26) (s * 2 ^ 22)) (d * 2 ^ 18)) (t * 2 ^ 4)) u
      ≡ p * 2 ^ 26 + s * 2 ^ 22 + d * 2 ^ 18 + t * 2 ^ 4 + u
or_chain p s d t u hs hd ht hu =
    rw
      (
        or_add 26 (p * 2 ^ 26) (s * 2 ^ 22) (omega arith) (omega arith),
        or_add 22 (p * 2 ^ 26 + s * 2 ^ 22) (d * 2 ^ 18) (omega arith) (omega arith),
        or_add 18 (p * 2 ^ 26 + s * 2 ^ 22 + d * 2 ^ 18) (t * 2 ^ 4) (omega arith) (omega arith),
        or_add 4 (p * 2 ^ 26 + s * 2 ^ 22 + d * 2 ^ 18 + t * 2 ^ 4) u (omega arith) (omega arith),
      )
      refl

s_sys_value : (s : ℕ) → s < 256 → data_to_s_sys s ≡ s / 16 * 2 ^ 22
unfolding data_to_s_sys
s_sys_value s h = omega (arith, sys_value s h)

d_sys_value : (d : ℕ) → d < 256 → data_to_d_sys d ≡ d / 16 * 2 ^ 18
unfolding data_to_d_sys
d_sys_value d h = omega (arith, sys_value d h)

s_smod_value : (s : ℕ) → data_to_s_smod s ≡ s % 16 * 2 ^ 4
unfolding data_to_s_smod
s_smod_value s = omega (arith, smod_value s)

d_smod_value : (d : ℕ) → data_to_d_smod d ≡ d % 16
unfolding data_to_d_smod
d_smod_value d = smod_value d

sum_value : (sum : ℕ) → sum < 256 → data_to_sum sum ≡ sum * 2 ^ 8
unfolding data_to_sum
sum_value sum h = omega (arith, bit_and_low 8 sum)

pub base_id_value :
    (p : FlexcanPacket)
    → p.priority < 8
    → p.s_id < 256
    → p.d_id < 256
    → base_id p ≡ ident p.priority p.s_id p.d_id 0
unfolding base_id
base_id_value p hp hs hd =
    rw
      (
        priority_value p.priority,
        s_sys_value p.s_id hs,
        d_sys_value p.d_id hd,
        s_smod_value p.s_id,
        d_smod_value p.d_id,
        or_chain (p.priority % 8) (p.s_id / 16) (p.d_id / 16) (p.s_id % 16) (p.d_id % 16)
            (omega arith) (omega arith) (omega arith) (omega arith),
      )
      (omega arith)

-- The packet sum goes into the bits that `base_id` leaves clear.
pub with_sum :
    (pr s d sum : ℕ)
    → s < 256
    → d < 256
    → sum < 256
    → bit_or (ident pr s d 0) (data_to_sum sum) ≡ ident pr s d sum
with_sum pr s d sum hs hd hsum =
    rw (sum_value sum hsum, high)
      (or_between 8 18 (pr * 2 ^ 8 + s / 16 * 2 ^ 4 + d / 16) (s % 16 * 2 ^ 4 + d % 16) sum
          (omega arith) (omega arith) (omega arith)
        ∙ omega arith)
  where
    high :
        ident pr s d 0 ≡ (pr * 2 ^ 8 + s / 16 * 2 ^ 4 + d / 16) * 2 ^ 18 + (s % 16 * 2 ^ 4 + d % 16)
    high = omega arith

module _ (pr s d sum : ℕ) (hp : pr < 8) (hs : s < 256) (hd : d < 256) (hm : sum < 256) where
  pub ident_lt : ident pr s d sum < 2 ^ 29
  ident_lt = omega arith

  pub id_to_priority_value : id_to_priority (ident pr s d sum) ≡ pr
  unfolding id_to_priority
  id_to_priority_value = omega (arith, and_window 26 3 (ident pr s d sum))

  pub id_to_sum_value : id_to_sum (ident pr s d sum) ≡ sum
  unfolding id_to_sum
  id_to_sum_value = omega (arith, and_window 8 8 (ident pr s d sum))

  pub id_to_s_module_value : id_to_s_module (ident pr s d sum) ≡ s
  unfolding id_to_s_module
  id_to_s_module_value = ground (
    arith,
    and_window 22 4 (ident pr s d sum),
    and_window 4 4 (ident pr s d sum),
    or_add 4 (s / 16 * 16) (s % 16),
  )

  pub id_to_d_module_value : id_to_d_module (ident pr s d sum) ≡ d
  unfolding id_to_d_module
  id_to_d_module_value = ground (
    arith,
    and_window 18 4 (ident pr s d sum),
    bit_and_low 4 (ident pr s d sum),
    or_add 4 (d / 16 * 16) (d % 16),
  )
