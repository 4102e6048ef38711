-- ===== src/RmCan/Device/Reading.antt =====
-- What a read returns, and that a timeout ends it.
use ota_backup.Base.{
  ℕ, ◌<◌, ◌≡◌, ◌⊎◌, inl, inr, refl, ap, List, [], ◌∷◌, ◌++◌, true, false, Bool-cases, Option, some,
  arith, All, pos, minus_one, memcpy, min, if◌then◌else◌,
}
use ota_backup.RmCan.Link.{CanPacket}
use ota_backup.RmCan.Device.{Pass, Answer, pop, wanted, is_late, read_pass, read_loop}

-- Everything that came, in order: what waited, then the arrivals of each pass.
abbrev pub stream : List CanPacket → List Pass → List CanPacket
stream l [] = l
stream l (pass ∷ passes) = stream (l ++ pass.arrivals) passes

module _ (s_id msg_type : ℕ) (p_data : List ℕ) (len : ℕ) where
  -- What came, as the packets that were dropped, the one that is given out, and the later ones.
  pub record Found (came : List CanPacket) (a : Answer) : Type 0 where
    pub dropped : List CanPacket
    pub message : CanPacket
    pub later : List CanPacket
    pub in_order : came ≡ dropped ++ (message ∷ later)
    pub not_wanted : All (λ m. wanted s_id msg_type m ≡ false) dropped
    pub is_wanted : wanted s_id msg_type message ≡ true
    pub length_given : a.result ≡ pos message.len
    pub bytes_given : a.buffer ≡ memcpy p_data 0 message.bytes (min len message.len)

stream-cons :
    (m : CanPacket) (l : List CanPacket) (passes : List Pass)
    → stream (m ∷ l) passes ≡ m ∷ stream l passes
stream-cons m l [] = refl
stream-cons m l (pass ∷ passes) = stream-cons m (l ++ pass.arrivals) passes

module _ (s_id msg_type : ℕ) (p_data : List ℕ) (len timeout : ℕ) where
  abbrev reads : List Pass → List CanPacket → Option Answer
  reads = read_loop s_id msg_type p_data len timeout

  -- The answer is -1 with the buffer untouched, or the first wanted packet of `came`.
  abbrev pub Answers : List CanPacket → Answer → Type 0
  Answers came a =
      ((a.result ≡ minus_one) × (a.buffer ≡ p_data)) ⊎ Found s_id msg_type p_data len came a

  drop_one :
      (m : CanPacket) (came : List CanPacket) (a : Answer)
      → wanted s_id msg_type m ≡ false
      → Answers came a
      → Answers (m ∷ came) a
  drop_one m came a n (inl h) = inl h
  drop_one m came a n (inr f) = inr (record {
    dropped = m ∷ f.dropped;
    message = f.message;
    later = f.later;
    in_order = ap (◌∷◌ m) f.in_order;
    not_wanted = (n, f.not_wanted);
    is_wanted = f.is_wanted;
    length_given = f.length_given;
    bytes_given = f.bytes_given;
  })

  found_now :
      (m : CanPacket) (came l : List CanPacket) (a : Answer)
      → wanted s_id msg_type m ≡ true
      → some (record {
        result = pos m.len;
        buffer = memcpy p_data 0 m.bytes (min len m.len);
        left = l;
      })
        ≡ some a
      → Answers (m ∷ came) a
  found_now m came l a h e = inr (record {
    dropped = [];
    message = m;
    later = came;
    in_order = refl;
    not_wanted = tt;
    is_wanted = h;
    length_given = ground arith;
    bytes_given = ground arith;
  })

  late_or_later :
      (elapsed : ℕ) (again : Option Answer) (l came : List CanPacket) (a : Answer)
      → (if is_late timeout elapsed
          then some (record { result = minus_one; buffer = p_data; left = l })
          else again)
        ≡ some a
      → (again ≡ some a → Answers came a)
      → Answers came a
  late_or_later elapsed again l came a e h = elim (Bool-cases (is_late timeout elapsed)) [
    | inl late ↦ inl (ground arith, ground arith)
    | inr early ↦ h (ground arith)
  ]

  pass-Answers :
      (elapsed : ℕ) (again : List CanPacket → Option Answer) (q : List CanPacket)
      (rest : List CanPacket → List CanPacket) (a : Answer)
      → ((m : CanPacket) (l : List CanPacket) → rest (m ∷ l) ≡ m ∷ rest l)
      → ((l : List CanPacket) → again l ≡ some a → Answers (rest l) a)
      → read_pass s_id msg_type p_data len timeout elapsed again q ≡ some a
      → Answers (rest q) a
  unfolding read_pass pop
  pass-Answers elapsed again [] rest a shift h e =
      late_or_later elapsed (again []) [] (rest []) a e (h [])
  pass-Answers elapsed again (m ∷ l) rest a shift h e =
      rw (shift m l) (elim (Bool-cases (wanted s_id msg_type m)) [
        | inl w ↦ found_now m (rest l) l a w (ground arith)
        | inr n ↦
            drop_one m (rest l) a n
              (late_or_later elapsed (again l) l (rest l) a (ground arith) (h l))
      ])

  -- A read that ends returns -1 and leaves the buffer, or it returns the length of a packet from the
  -- source and of the type that were asked for, the first such of all that came, with its bytes as far
  -- as the buffer takes them; the packets before it were of another source or type.
  pub read_loop-Answers :
      (passes : List Pass) (l : List CanPacket) (a : Answer)
      → read_loop s_id msg_type p_data len timeout passes l ≡ some a
      → Answers (stream l passes) a
  unfolding read_loop
  read_loop-Answers [] l a e = cc
  read_loop-Answers (pass ∷ passes) l a e =
      pass-Answers pass.elapsed (λ l'. reads passes l') (l ++ pass.arrivals) (λ q. stream q passes)
        a (λ m q. stream-cons m q passes) (λ q. read_loop-Answers passes q a) e

  ends_when_late :
      (elapsed : ℕ) (again : List CanPacket → Option Answer) (q : List CanPacket)
      → is_late timeout elapsed ≡ true
      → (a : Answer) × (read_pass s_id msg_type p_data len timeout elapsed again q ≡ some a)
  unfolding read_pass pop
  ends_when_late elapsed again [] late =
      (record { result = minus_one; buffer = p_data; left = [] }, rw late refl)
  ends_when_late elapsed again (m ∷ l) late = elim (Bool-cases (wanted s_id msg_type m)) [
    | inl w ↦ (
      record { result = pos m.len; buffer = memcpy p_data 0 m.bytes (min len m.len); left = l },
      rw w refl,
    )
    | inr n ↦ (record { result = minus_one; buffer = p_data; left = l }, rw (n, late) refl)
  ]

  ends_as_rest :
      (elapsed : ℕ) (again : List CanPacket → Option Answer) (q : List CanPacket)
      → ((l : List CanPacket) → (a : Answer) × (again l ≡ some a))
      → (a : Answer) × (read_pass s_id msg_type p_data len timeout elapsed again q ≡ some a)
  unfolding read_pass pop
  ends_as_rest elapsed again [] h = elim (Bool-cases (is_late timeout elapsed)) [
    | inl late ↦ ends_when_late elapsed again [] late
    | inr early ↦ ((h []).0, rw early (h []).1)
  ]
  ends_as_rest elapsed again (m ∷ l) h = elim (Bool-cases (is_late timeout elapsed)) [
    | inl late ↦ ends_when_late elapsed again (m ∷ l) late
    | inr early ↦ elim (Bool-cases (wanted s_id msg_type m)) [
      | inl w ↦ (
        record { result = pos m.len; buffer = memcpy p_data 0 m.bytes (min len m.len); left = l },
        rw w refl,
      )
      | inr n ↦ ((h l).0, rw (n, early) (h l).1)
    ]
  ]

  -- With a timeout above 0, a read ends at the latest in the pass whose clock is past the timeout,
  -- whatever came before it and whatever comes later.
  pub read_loop_ends :
      (before : List Pass) (pass : Pass) (later : List Pass) (l : List CanPacket)
      → 0 < timeout
      → timeout < pass.elapsed
      → (a : Answer) × (read_loop s_id msg_type p_data len timeout (before ++ (pass ∷ later)) l
          ≡ some a)
  unfolding read_loop
  read_loop_ends [] pass later l t h =
      ends_when_late pass.elapsed (λ l'. reads later l') (l ++ pass.arrivals)
        (unfold is_late in ground arith)
  read_loop_ends (p ∷ before) pass later l t h =
      ends_as_rest p.elapsed (λ l'. reads (before ++ (pass ∷ later)) l') (l ++ p.arrivals)
        λ l'. read_loop_ends before pass later l' t h
