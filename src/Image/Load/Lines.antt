-- ===== src/Image/Load/Lines.antt =====
-- The lines of LoadHex: the loop over them ends, and the elements it gathers are as long as they say.
use ota_backup.Base.{
  ℕ, zero, suc, ◌+◌, ◌*◌, ◌%◌, ◌^◌, ◌≤◌, ◌≡◌, inl, inr, refl, List, [], ◌∷◌, Bool, true, false,
  Bool-cases, ◌==◌, Option, none, some, arith, length as size,
}
use ota_backup.Image.Scan.{Scanned, scanned, outside, scan_hex}
use ota_backup.Image.Scan.Digits.{Holds, HasSign, Within, then_scan-Holds, scan_hex-left}
use ota_backup.Image.Elements.Sized.{Holding, store-Holding}
use ota_backup.Image.Load.{
  Variables, Line, Data, scan_data, is_checked, checked_line, address_sum, data_record, end_record,
  segment_record, start_segment_record, linear_record, start_linear_record, typed_record,
  hex_record, hex_line, next_line, load_lines,
}

-- Sized elements, and `m_DataSize` counts their bytes.
abbrev pub IsGood : Variables → Type 0
IsGood v = Holding v.data_size v.elements

module _ (F : Type 0) where
  abbrev Left : ℕ → ℕ × List ℕ → Type 0
  Left n r = Within F n r.1

  -- So many bytes were read, and no more than `n` characters are left.
  abbrev IsData : ℕ → ℕ → Data → Type 0
  IsData n count d = Within F n d.left × (size d.bytes ≡ count)

  abbrev IsLine : ℕ → Line → Type 0
  IsLine n l = Within F n l.left × (l.good ≡ true → IsGood l.variables)

  scan_data-IsData :
      (count character sum_var n : ℕ) (s : List ℕ)
      → Within F n s
      → Holds F (IsData n count) (scan_data count character sum_var s)
  unfolding scan_data
  scan_data-IsData zero character sum_var n s h = (h, refl)
  scan_data-IsData (suc count) character sum_var n s h =
      then_scan-Holds F (Left n) (IsData n (suc count)) (scan_hex 2 character s) _
        (scan_hex-left F 2 character n s h)
        (λ r k.
          then_scan-Holds F (IsData n count) (IsData n (suc count))
            (scan_data count r.0 (sum_var + r.0) r.1) _
            (scan_data-IsData count r.0 (sum_var + r.0) n r.1 k) (λ d q. (q.0, omega (arith, q.1))))

  checked_line-IsLine :
      (v : Variables) (sum_var n : ℕ) (s : List ℕ) (last : Bool) (good : Variables → Variables)
      → Within F n s
      → ((c : ℕ) → IsGood (good (record v { checksum = c })))
      → Holds F (IsLine n) (checked_line v sum_var s last good)
  unfolding checked_line
  checked_line-IsLine v sum_var n s last good h g =
      then_scan-Holds F (Left n) (IsLine n) (scan_hex 2 v.checksum s) _
        (scan_hex-left F 2 v.checksum n s h)
        (λ r k. elim (Bool-cases (is_checked r.0 sum_var)) [
          | inl ok ↦ rw ok (k, λ t. g r.0)
          | inr bad ↦ rw bad (k, λ t. absurd cc)
        ])

  data_record-IsLine :
      (addr_bytes n : ℕ) (v : Variables) (s : List ℕ)
      → Within F n s
      → IsGood v
      → Holds F (IsLine n) (data_record addr_bytes v s)
  unfolding data_record
  data_record-IsLine addr_bytes n v s h g =
      then_scan-Holds F (IsData n v.byte_count) (IsLine n)
        (scan_data v.byte_count v.character (v.byte_count + address_sum v.address) s) _
        (scan_data-IsData v.byte_count v.character (v.byte_count + address_sum v.address) n s h)
        (λ d k. checked_line-IsLine _ (d.sum_var + v.separator) n d.left false _ k.0 (λ c.
          let put =
            store-Holding addr_bytes v.elements
              (record {
                address =
                    (v.extended_address * 2 ^ 16 + v.base_address * 2 ^ 4 + v.address) % 2 ^ 32;
                length = v.byte_count;
                bytes = d.bytes;
              })
              g.0 k.1 in
          (put.0, omega (arith, put.1, g.1))))

  -- Records of every type.
  typed_record-IsLine :
      (addr_bytes n : ℕ) (v : Variables) (s : List ℕ)
      → Within F n s
      → IsGood v
      → Holds F (IsLine n) (typed_record addr_bytes v s)
  unfolding typed_record end_record segment_record start_segment_record linear_record
      start_linear_record
  typed_record-IsLine addr_bytes n v s h g = elim (Bool-cases (v.separator == 0)) [
    | inl e0 ↦ rw e0 (data_record-IsLine addr_bytes n v s h g)
    | inr n0 ↦ elim (Bool-cases (v.separator == 1)) [
      | inl e1 ↦ rw (n0, e1) (checked_line-IsLine v _ n s true _ h (λ c. g))
      | inr n1 ↦ elim (Bool-cases (v.separator == 2)) [
        | inl e2 ↦
            rw (n0, n1, e2)
              (then_scan-Holds F (Left n) (IsLine n) (scan_hex 4 v.base_address s) _
                (scan_hex-left F 4 v.base_address n s h)
                (λ r k. checked_line-IsLine _ _ n r.1 false _ k (λ c. g)))
        | inr n2 ↦ elim (Bool-cases (v.separator == 3)) [
          | inl e3 ↦
              rw (n0, n1, n2, e3)
                (then_scan-Holds F (IsData n v.byte_count) (IsLine n)
                  (scan_data v.byte_count v.character _ s) _
                  (scan_data-IsData v.byte_count v.character _ n s h)
                  (λ d k. checked_line-IsLine _ _ n d.left false _ k.0 (λ c. g)))
          | inr n3 ↦ elim (Bool-cases (v.separator == 4)) [
            | inl e4 ↦
                rw (n0, n1, n2, n3, e4)
                  (then_scan-Holds F (Left n) (IsLine n) (scan_hex 4 v.extended_address s) _
                    (scan_hex-left F 4 v.extended_address n s h)
                    (λ r k. checked_line-IsLine _ _ n r.1 false _ k (λ c. g)))
            | inr n4 ↦ elim (Bool-cases (v.separator == 5)) [
              | inl e5 ↦
                  rw (n0, n1, n2, n3, n4, e5)
                    (then_scan-Holds F (IsData n v.byte_count) (IsLine n)
                      (scan_data v.byte_count v.character _ s) _
                      (scan_data-IsData v.byte_count v.character _ n s h)
                      (λ d k. checked_line-IsLine _ _ n d.left false _ k.0 (λ c. g)))
              | inr n5 ↦ rw (n0, n1, n2, n3, n4, n5) (h, λ t. absurd cc)
            ]
          ]
        ]
      ]
    ]
  ]

  hex_record-IsLine :
      (addr_bytes n : ℕ) (v : Variables) (s : List ℕ)
      → Within F n s
      → IsGood v
      → Holds F (IsLine n) (hex_record addr_bytes v s)
  unfolding hex_record
  hex_record-IsLine addr_bytes n v s h g =
      then_scan-Holds F (Left n) (IsLine n) (scan_hex 2 v.byte_count s) _
        (scan_hex-left F 2 v.byte_count n s h)
        (λ r1 k1.
          then_scan-Holds F (Left n) (IsLine n) (scan_hex 4 v.address r1.1) _
            (scan_hex-left F 4 v.address n r1.1 k1)
            (λ r2 k2.
              then_scan-Holds F (Left n) (IsLine n) (scan_hex 2 v.separator r2.1) _
                (scan_hex-left F 2 v.separator n r2.1 k2)
                (λ r3 k3. typed_record-IsLine addr_bytes n _ r3.1 k3 g)))

  hex_line-IsLine :
      (addr_bytes : ℕ) (v : Variables) (colon : ℕ) (s : List ℕ)
      → Within F (size s) s
      → IsGood v
      → Holds F (IsLine (size s)) (hex_line addr_bytes v colon s)
  unfolding hex_line
  hex_line-IsLine addr_bytes v colon s h g = elim (Bool-cases (colon == 58)) [
    | inl e ↦ rw e (hex_record-IsLine addr_bytes (size s) v s h g)
    | inr n ↦ rw n (h, λ t. g)
  ]

  -- The loop has ended, with good variables if the file was good.
  abbrev pub Ended : Option (Scanned (Bool × Variables)) → Type 0
  Ended none = ⊥
  Ended (some answer) = Holds F (λ (r : Bool × Variables). r.0 ≡ true → IsGood r.1) answer

  next_line-Ended :
      (n : ℕ) (x : Scanned Line) (again : Variables → List ℕ → Option (Scanned (Bool × Variables)))
      → Holds F (IsLine n) x
      → ((v : Variables) (s : List ℕ) → IsGood v → Within F n s → Ended (again v s))
      → Ended (next_line x again)
  unfolding next_line
  next_line-Ended n outside again h k = h
  next_line-Ended n (scanned l) again h k = elim (Bool-cases l.good) [
    | inr bad ↦ rw bad (λ t. absurd cc)
    | inl good ↦ elim (Bool-cases l.last_byte) [
      | inl last ↦ rw (good, last) (λ t. h.1 good)
      | inr more ↦ rw (good, more) (k l.variables l.left (h.1 good) h.0)
    ]
  ]

  pub load_lines-Ended :
      (fuel addr_bytes : ℕ) (v : Variables) (s : List ℕ)
      → IsGood v
      → (HasSign s → F)
      → size s + 1 ≤ fuel
      → Ended (load_lines fuel addr_bytes v s)
  unfolding load_lines
  load_lines-Ended zero addr_bytes v s g f h = absurd (omega arith)
  load_lines-Ended (suc fuel) addr_bytes v [] g f h = λ t. g
  load_lines-Ended (suc fuel) addr_bytes v (colon ∷ s) g f h =
      next_line-Ended (size s) (hex_line addr_bytes v colon s) (load_lines fuel addr_bytes)
        (hex_line-IsLine addr_bytes v colon s (omega arith, λ k. f (inr k)) g)
        (λ v' s' g' h'. load_lines-Ended fuel addr_bytes v' s' g' h'.1 (omega (arith, h'.0)))
