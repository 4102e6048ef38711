-- ===== src/Image/Load/Finish.antt =====
-- LoadHex ends, and what it loads is as long as it says.
use mathlib.Core.Option.{map as option_map}
use ota_backup.Base.{
  ◌⊎◌, ◌/◌, ◌++◌, ap, ==→eq, ℕ, ◌+◌, ◌≡◌, inl, inr, refl, List, [], ◌∷◌, Bool, true, false,
  Bool-cases, ◌==◌, Option, none, some, arith, length as size,
}
use ota_backup.Image.Element.{ImageElement}
use ota_backup.Image.Scan.{Scanned, scanned, outside}
use ota_backup.Image.Scan.Digits.{HasSign}
use ota_backup.Image.Elements.{sort, compact_from, compact_elements}
use ota_backup.Image.Elements.Sized.{Holding, compact_elements-Holding}
use ota_backup.Image.Path.{check_file_ext}
use ota_backup.Image.Load.{
  Variables, load_lines, Load, refused, loaded, undefined, unmodelled, compacted, finish, load_hex,
}
use ota_backup.Image.Load.Lines.{IsGood, Ended, load_lines-Ended}

-- The loop of CompactElements reads behind the vector on these: there is no element, or the last two that
-- are left are joined.
abbrev pub EndsJoined : List ImageElement → Type 0
EndsJoined es =
    (es ≡ [])
    ⊎ ((before : List ImageElement) × (e1 : ImageElement) × (e2 : ImageElement) × (es
          ≡ before ++ (e1 ∷ e2 ∷ []))
        × (e1.address + e1.length / 2 ≡ e2.address))

compact_from-EndsJoined : (es : List ImageElement) → compact_from es ≡ none → EndsJoined es
unfolding compact_from
compact_from-EndsJoined [] e = inl refl
compact_from-EndsJoined (x ∷ []) e = cc
compact_from-EndsJoined (e1 ∷ e2 ∷ es) e =
    elim (Bool-cases (e1.address + e1.length / 2 == e2.address)) [
      | inl near ↦
          (let joins = ==→eq (e1.address + e1.length / 2) e2.address near in
            elim (compact_from-EndsJoined es (nothing _ (compact_from es) (rw near at e))) [
              | inl empty ↦ inr ([], e1, e2, ap (λ l. e1 ∷ e2 ∷ l) empty, joins)
              | inr (before, a, b, q, k) ↦ inr (e1 ∷ e2 ∷ before, a, b, ap (λ l. e1 ∷ e2 ∷ l) q, k)
            ])
      | inr far ↦
          elim (compact_from-EndsJoined (e2 ∷ es)
            (nothing _ (compact_from (e2 ∷ es)) (rw far at e))) [
              | inl empty ↦ absurd cc
              | inr (before, a, b, q, k) ↦ inr (e1 ∷ before, a, b, ap (◌∷◌ e1) q, k)
            ]
    ]
  where
    nothing :
        (f : List ImageElement → List ImageElement) (o : Option (List ImageElement))
        → option_map f o ≡ none
        → o ≡ none
    nothing f none e = refl
    nothing f (some x) e = cc

-- The run of the loop of `LoadHex` over a file from its start.
abbrev pub first_lines : Variables → ℕ → List ℕ → Option (Scanned (Bool × Variables))
first_lines v addr_bytes file =
    load_lines (size file + 1) addr_bytes
      (record v { elements = []; data_size = 0; base_address = 0; extended_address = 0 }) file

-- All records of the file were good, and the loop of CompactElements runs behind their sorted elements.
pub record RunsBehind (v : Variables) (addr_bytes : ℕ) (file : List ℕ) : Type 0 where
  pub read : Variables
  pub are_good : first_lines v addr_bytes file ≡ some (scanned (true, read))
  pub joined_at_end : EndsJoined (sort read.elements)

-- What is known of an answer to a file: false means that the file does not open, has another extension or
-- has a bad record; an image holds as many bytes as it says; the behaviour is undefined only where
-- CompactElements runs behind the elements of the file; the model is left only for a file with a sign or
-- an 'x' in it.
abbrev pub Answers : Variables → List ℕ → ℕ → Option (List ℕ) → Option Load → Type 0
Answers v path addr_bytes file none = ⊥
Answers v path addr_bytes none (some refused) = Unit
Answers v path addr_bytes (some s) (some refused) =
    (check_file_ext path ≡ false)
    ⊎ ((read : Variables) × (first_lines v addr_bytes s ≡ some (scanned (false, read))))
Answers v path addr_bytes file (some (loaded es data_size)) = Holding data_size es
Answers v path addr_bytes none (some undefined) = ⊥
Answers v path addr_bytes (some s) (some undefined) = RunsBehind v addr_bytes s
Answers v path addr_bytes none (some unmodelled) = ⊥
Answers v path addr_bytes (some s) (some unmodelled) = HasSign s

compacted-Answers :
    (v : Variables) (path : List ℕ) (addr_bytes : ℕ) (file : List ℕ) (read : Variables)
    (o : Option (List ImageElement))
    → first_lines v addr_bytes file ≡ some (scanned (true, read))
    → compact_elements read.elements ≡ o
    → IsGood read
    → Answers v path addr_bytes (some file) (some (compacted read.data_size o))
unfolding compacted compact_elements
compacted-Answers v path addr_bytes file read none good e h = record {
  read = read;
  are_good = good;
  joined_at_end = compact_from-EndsJoined (sort read.elements) e;
}
compacted-Answers v path addr_bytes file read (some es') good e h =
    let k = compact_elements-Holding read.elements es' h.0 e in (k.0, omega (arith, k.1, h.1))

finish-Answers :
    (v : Variables) (path : List ℕ) (addr_bytes : ℕ) (file : List ℕ)
    (o : Option (Scanned (Bool × Variables)))
    → first_lines v addr_bytes file ≡ o
    → Ended (HasSign file) o
    → Answers v path addr_bytes
        (some file)
        (elim o [ none ↦ none | some answer ↦ some (finish answer) ])
unfolding finish
finish-Answers v path addr_bytes file none e h = h
finish-Answers v path addr_bytes file (some outside) e h = h
finish-Answers v path addr_bytes file (some (scanned (false, read))) e h = inr (read, e)
finish-Answers v path addr_bytes file (some (scanned (true, read))) e h =
    compacted-Answers v path addr_bytes file read (compact_elements read.elements) e refl (h refl)

pub load_hex-Answers :
    (v : Variables) (path : List ℕ) (file : Option (List ℕ)) (addr_bytes : ℕ)
    → Answers v path addr_bytes file (load_hex v path file addr_bytes)
unfolding load_hex
load_hex-Answers v path none addr_bytes = tt
load_hex-Answers v path (some file) addr_bytes = elim (Bool-cases (check_file_ext path)) [
  | inr other ↦ rw other (inl other)
  | inl hex ↦ rw hex (
      finish-Answers v path addr_bytes file (first_lines v addr_bytes file) refl (
        load_lines-Ended (HasSign file) (size file + 1) addr_bytes _ file (tt, refl) (λ k. k)
          (omega arith)))
]
