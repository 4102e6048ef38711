-- ===== src/Image/RoundTrip/Images.antt =====
-- An image cut into records, printed and loaded.
use ota_backup.Base.{
  ℕ, ◌+◌, ◌/◌, ◌<◌, ◌≡◌, ◌≢◌, ◌∙◌, refl, sym, ap, ap₂, arith, List, [], ◌∷◌, ◌++◌, append_assoc,
  append-nil, true, false, ◌==◌, ==→eq, Bool-cases, inl, inr, some, All, map, length as size,
  length-append, take_all, ltb,
}
use ota_backup.Image.Element.{ImageElement}
use ota_backup.Image.Elements.{
  add_image_element, joined, store, compare_element, insert, sort, compact_from, compact_elements,
}
use ota_backup.Image.Elements.Sized.{total}
use ota_backup.Image.Path.{check_file_ext}
use ota_backup.Image.Load.{Variables, loaded, compacted, load_hex}
use ota_backup.Image.RoundTrip.Records.{IsRecord, print_file, gathered, load_hex-print_records}

-- A run of bytes at an address, in the pieces that its records hold; there is one at least.
pub record Segment : Type 0 where
  pub start : ℕ
  pub first : List ℕ
  pub rest : List (List ℕ)

abbrev pub concat : List (List ℕ) → List ℕ
concat [] = []
concat (p ∷ ps) = p ++ concat ps

abbrev pub segment_bytes : Segment → List ℕ
segment_bytes g = g.first ++ concat g.rest

-- The element that a segment is.
abbrev pub whole : Segment → ImageElement
whole g = record { address = g.start; length = size (segment_bytes g); bytes = segment_bytes g }

abbrev pub record_of : ℕ → List ℕ → ImageElement
record_of address bytes = record { address = address; length = size bytes; bytes = bytes }

-- The records of a segment: each piece at the address that the bytes before it lead to.
abbrev pub cut : ℕ → ℕ → ℕ → List (List ℕ) → List ImageElement
cut addr_bytes start before [] = []
cut addr_bytes start before (p ∷ ps) =
    record_of (start + before / addr_bytes) p ∷ cut addr_bytes start (before + size p) ps

abbrev pub records_of : ℕ → Segment → List ImageElement
records_of addr_bytes g = record_of g.start g.first ∷ cut addr_bytes g.start (size g.first) g.rest

abbrev pub image_records : ℕ → List Segment → List ImageElement
image_records addr_bytes [] = []
image_records addr_bytes (g ∷ gs) = records_of addr_bytes g ++ image_records addr_bytes gs

-- Two segments of which the first lies in front of the second, with a gap between them, whether the
-- bytes per address are `addr_bytes` or the two that CompactElements counts with.
pub record Apart (addr_bytes : ℕ) (g h : Segment) : Type 0 where
  pub ascends : g.start < h.start
  pub gap : g.start + size (segment_bytes g) / addr_bytes ≢ h.start
  pub gap_of_words : g.start + size (segment_bytes g) / 2 ≢ h.start

abbrev pub AreApart : ℕ → List Segment → Type 0
AreApart addr_bytes [] = Unit
AreApart addr_bytes (g ∷ []) = Unit
AreApart addr_bytes (g ∷ h ∷ gs) = Apart addr_bytes g h × AreApart addr_bytes (h ∷ gs)

-- Only the last element is looked at.
store-append :
    (addr_bytes : ℕ) (before : List ImageElement) (prev e : ImageElement)
    → store addr_bytes (before ++ (prev ∷ [])) e ≡ before ++ store addr_bytes (prev ∷ []) e
unfolding store
store-append addr_bytes [] prev e = refl
store-append addr_bytes (x ∷ []) prev e = refl
store-append addr_bytes (x ∷ y ∷ before) prev e =
    ap (◌∷◌ x) (store-append addr_bytes (y ∷ before) prev e)

gathered-append :
    (addr_bytes : ℕ) (es xs ys : List ImageElement)
    → gathered addr_bytes es (xs ++ ys) ≡ gathered addr_bytes (gathered addr_bytes es xs) ys
gathered-append addr_bytes es [] ys = refl
gathered-append addr_bytes es (x ∷ xs) ys = gathered-append addr_bytes (store addr_bytes es x) xs ys

-- The pieces of a segment that follow are joined with those before.
gathered-cut :
    (addr_bytes start : ℕ) (before : List ImageElement) (bytes : List ℕ) (ps : List (List ℕ))
    → gathered addr_bytes
        (before ++ (record_of start bytes ∷ []))
        (cut addr_bytes start (size bytes) ps)
      ≡ before ++ (record_of start (bytes ++ concat ps) ∷ [])
unfolding store joined
gathered-cut addr_bytes start before bytes [] =
    ap (λ b. before ++ (record_of start b ∷ [])) (sym (append-nil bytes))
gathered-cut addr_bytes start before bytes (p ∷ ps) =
    ap (λ es. gathered addr_bytes es (cut addr_bytes start (size bytes + size p) ps))
      (store-append addr_bytes before (record_of start bytes)
          (record_of (start + size bytes / addr_bytes) p)
        ∙ ap (λ es. before ++ es) joins)
    ∙ ap
        (λ n.
          gathered addr_bytes (before ++ (record_of start (bytes ++ p) ∷ []))
            (cut addr_bytes start n ps))
        (sym (length-append bytes p))
    ∙ gathered-cut addr_bytes start before (bytes ++ p) ps
    ∙ ap (λ b. before ++ (record_of start b ∷ [])) (append_assoc bytes p (concat ps))
  where
    near : (start + size bytes / addr_bytes == start + size bytes / addr_bytes) ≡ true
    near = ground arith

    joins :
        store addr_bytes
          (record_of start bytes ∷ [])
          (record_of (start + size bytes / addr_bytes) p)
        ≡ record_of start (bytes ++ p) ∷ []
    joins =
        rw
          (
            near,
            take_all (size bytes) bytes (omega arith),
            take_all (size p) p (omega arith),
            length-append bytes p,
          )
          refl

-- A new segment behind one that is apart from it.
store-Apart :
    (addr_bytes : ℕ) (before : List ImageElement) (g h : Segment)
    → Apart addr_bytes g h
    → store addr_bytes (before ++ (whole g ∷ [])) (record_of h.start h.first)
      ≡ (before ++ (whole g ∷ [])) ++ (record_of h.start h.first ∷ [])
unfolding store add_image_element
store-Apart addr_bytes before g h a =
    store-append addr_bytes before (whole g) (record_of h.start h.first)
    ∙ ap (λ es. before ++ es) stays
    ∙ sym (append_assoc before (whole g ∷ []) (record_of h.start h.first ∷ []))
  where
    far : (g.start + size (segment_bytes g) / addr_bytes == h.start) ≡ false
    far = elim (Bool-cases (g.start + size (segment_bytes g) / addr_bytes == h.start)) [
      | inr away ↦ away
      | inl touching ↦
          absurd (a.gap (==→eq (g.start + size (segment_bytes g) / addr_bytes) h.start touching))
    ]

    stays :
        store addr_bytes (whole g ∷ []) (record_of h.start h.first)
        ≡ whole g ∷ record_of h.start h.first ∷ []
    stays = rw (far, take_all (size h.first) h.first (omega arith)) refl

gathered-image_records :
    (addr_bytes : ℕ) (before : List ImageElement) (g : Segment) (gs : List Segment)
    → AreApart addr_bytes (g ∷ gs)
    → gathered addr_bytes (before ++ (whole g ∷ [])) (image_records addr_bytes gs)
      ≡ before ++ (whole g ∷ map whole gs)
gathered-image_records addr_bytes before g [] a = refl
gathered-image_records addr_bytes before g (h ∷ gs) a =
    ap
      (λ es.
        gathered addr_bytes es
          (cut addr_bytes h.start (size h.first) h.rest ++ image_records addr_bytes gs))
      (store-Apart addr_bytes before g h a.0)
    ∙ gathered-append addr_bytes _ (cut addr_bytes h.start (size h.first) h.rest)
        (image_records addr_bytes gs)
    ∙ ap (λ es. gathered addr_bytes es (image_records addr_bytes gs))
        (gathered-cut addr_bytes h.start (before ++ (whole g ∷ [])) h.first h.rest)
    ∙ gathered-image_records addr_bytes (before ++ (whole g ∷ [])) h gs a.1
    ∙ append_assoc before (whole g ∷ []) (whole h ∷ map whole gs)

gathered-image :
    (addr_bytes : ℕ) (g : Segment) (gs : List Segment)
    → AreApart addr_bytes (g ∷ gs)
    → gathered addr_bytes [] (image_records addr_bytes (g ∷ gs)) ≡ map whole (g ∷ gs)
unfolding store add_image_element
gathered-image addr_bytes g gs a =
    ap
      (λ b.
        gathered addr_bytes (record { address = g.start; length = size g.first; bytes = b } ∷ [])
          (cut addr_bytes g.start (size g.first) g.rest ++ image_records addr_bytes gs))
      (take_all (size g.first) g.first (omega arith))
    ∙ gathered-append addr_bytes (record_of g.start g.first ∷ [])
        (cut addr_bytes g.start (size g.first) g.rest) (image_records addr_bytes gs)
    ∙ ap (λ es. gathered addr_bytes es (image_records addr_bytes gs))
        (gathered-cut addr_bytes g.start [] g.first g.rest)
    ∙ gathered-image_records addr_bytes [] g gs a

-- Segments that are apart and ascend stay as they are.
sort-whole :
    (addr_bytes : ℕ) (g : Segment) (gs : List Segment)
    → AreApart addr_bytes (g ∷ gs)
    → sort (map whole (g ∷ gs)) ≡ map whole (g ∷ gs)
unfolding sort insert compare_element
sort-whole addr_bytes g [] a = refl
sort-whole addr_bytes g (h ∷ gs) a = rw (sort-whole addr_bytes h gs a.1, less) refl
  where
    less : ltb h.start g.start ≡ false
    less = ground (arith, a.0.ascends)

compact_from-whole :
    (addr_bytes : ℕ) (g : Segment) (gs : List Segment)
    → AreApart addr_bytes (g ∷ gs)
    → compact_from (map whole (g ∷ gs)) ≡ some (map whole (g ∷ gs))
unfolding compact_from
compact_from-whole addr_bytes g [] a = refl
compact_from-whole addr_bytes g (h ∷ gs) a = rw (far, compact_from-whole addr_bytes h gs a.1) refl
  where
    far : (g.start + size (segment_bytes g) / 2 == h.start) ≡ false
    far = elim (Bool-cases (g.start + size (segment_bytes g) / 2 == h.start)) [
      | inr away ↦ away
      | inl touching ↦
          absurd (a.0.gap_of_words (==→eq (g.start + size (segment_bytes g) / 2) h.start touching))
    ]

total-append : (xs ys : List ImageElement) → total (xs ++ ys) ≡ total xs + total ys
total-append [] ys = omega arith
total-append (x ∷ xs) ys = omega (arith, total-append xs ys)

total-cut :
    (addr_bytes start before : ℕ) (ps : List (List ℕ))
    → total (cut addr_bytes start before ps) ≡ size (concat ps)
total-cut addr_bytes start before [] = refl
total-cut addr_bytes start before (p ∷ ps) =
    omega (arith, length-append p (concat ps), total-cut addr_bytes start (before + size p) ps)

total-image_records :
    (addr_bytes : ℕ) (gs : List Segment)
    → total (image_records addr_bytes gs) ≡ total (map whole gs)
total-image_records addr_bytes [] = refl
total-image_records addr_bytes (g ∷ gs) = omega (
  arith,
  total-append (records_of addr_bytes g) (image_records addr_bytes gs),
  total-cut addr_bytes g.start (size g.first) g.rest,
  length-append g.first (concat g.rest),
  total-image_records addr_bytes gs,
)

-- A hex file of an image, every segment of it cut into records in any way, loads as exactly the segments,
-- under a path that `CheckFileExt` takes: each is one element with its address and all its bytes in order,
-- and the data size is the number of all bytes. The image has a segment at least; the segments ascend with
-- gaps between them; every record has a 16-bit address and at most 255 bytes.
pub load_hex-print_file :
    (v : Variables) (path : List ℕ) (addr_bytes : ℕ) (g : Segment) (gs : List Segment)
    → check_file_ext path ≡ true
    → 0 < addr_bytes
    → AreApart addr_bytes (g ∷ gs)
    → All IsRecord (image_records addr_bytes (g ∷ gs))
    → load_hex v path (some (print_file (image_records addr_bytes (g ∷ gs)))) addr_bytes
      ≡ some (loaded (map whole (g ∷ gs)) (total (map whole (g ∷ gs))))
unfolding compact_elements compacted
load_hex-print_file v path addr_bytes g gs hex positive a h =
    load_hex-print_records v path addr_bytes (image_records addr_bytes (g ∷ gs)) hex h
    ∙ ap₂ (λ es n. some (compacted n (compact_elements es))) (gathered-image addr_bytes g gs a)
        (total-image_records addr_bytes (g ∷ gs))
    ∙ ap (λ o. some (compacted (total (map whole (g ∷ gs))) o))
        (ap compact_from (sort-whole addr_bytes g gs a) ∙ compact_from-whole addr_bytes g gs a)
