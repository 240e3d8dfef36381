-- ===== src/Elf/RoundTrip.antt =====
-- Headers written in either byte order are read back.
use scarlet.Common.{
  ltb, ◌==◌, if◌then◌else◌, length, ℕ, ◌≤◌, ◌≡◌, refl, ap, ◌∙◌, Bool, true, false, List, arith,
}
use scarlet.Elf.{
  ElfHeader, ProgramHeader, unsupported_class, invalid_data, invalid_size, ok, err, elfdata2lsb,
  elfclass64, header_fields, program_fields, parse_header, parse_program,
}
use scarlet.Elf.Fields.{
  header_bytes, program_bytes, HeaderFits, ProgramFits, program_fields-bytes, header_fields-bytes,
}

not_short : (n x : ℕ) → n ≤ x → ltb x n ≡ false
not_short n x h = ground (arith, h)

-- A test that comes out as no.
past {ℓ} : {A : Type ℓ} (b : Bool) (x y z : A) → b ≡ false → y ≡ z → (if b then x else y) ≡ z
past b x y z e f = rw e f

-- A test that comes out as yes.
into {ℓ} : {A : Type ℓ} (b : Bool) (x y z : A) → b ≡ true → x ≡ z → (if b then x else y) ≡ z
into b x y z e f = rw e f

-- What is written as a header is read back from the front of a file, whatever follows it: an ELF
-- header of a 64-bit file whose class and byte order say so, and a program header in the byte order
-- given, each with fields that fit their widths.
pub parse-bytes :
    (h : ElfHeader) (p : ProgramHeader) (tail : List ℕ)
    → h.ei_class ≡ elfclass64
    → HeaderFits h
    → ProgramFits p
    → (parse_header (header_bytes (h.ei_data == elfdata2lsb) h tail) ≡ ok h)
      × ((little : Bool) → parse_program (program_bytes little p tail) little ≡ ok p)
unfolding parse_header parse_program
parse-bytes h p tail class fits pfits =
    (by_order (h.ei_data == elfdata2lsb) refl, λ little. program little)
  where
    by_order :
        (little : Bool)
        → (h.ei_data == elfdata2lsb) ≡ little
        → parse_header (header_bytes little h tail) ≡ ok h
    by_order true e =
        past (ltb (length (header_bytes true h tail)) 64) (err invalid_data) _ (ok h)
          (not_short 64 (length (header_bytes true h tail)) (omega arith))
          (into (h.ei_class == elfclass64)
            (ok (header_fields (header_bytes true h tail) (h.ei_data == elfdata2lsb)))
            (err unsupported_class) (ok h) (rw class refl)
            (ap ok (
              ap (header_fields (header_bytes true h tail)) e
              ∙ header_fields-bytes true h tail fits)))
    by_order false e =
        past (ltb (length (header_bytes false h tail)) 64) (err invalid_data) _ (ok h)
          (not_short 64 (length (header_bytes false h tail)) (omega arith))
          (into (h.ei_class == elfclass64)
            (ok (header_fields (header_bytes false h tail) (h.ei_data == elfdata2lsb)))
            (err unsupported_class) (ok h) (rw class refl)
            (ap ok (
              ap (header_fields (header_bytes false h tail)) e
              ∙ header_fields-bytes false h tail fits)))

    program : (little : Bool) → parse_program (program_bytes little p tail) little ≡ ok p
    program true =
        past (ltb (length (program_bytes true p tail)) 56) (err invalid_size)
          (ok (program_fields (program_bytes true p tail) true)) (ok p)
          (not_short 56 (length (program_bytes true p tail)) (omega arith))
          (ap ok (program_fields-bytes true p tail pfits))
    program false =
        past (ltb (length (program_bytes false p tail)) 56) (err invalid_size)
          (ok (program_fields (program_bytes false p tail) false)) (ok p)
          (not_short 56 (length (program_bytes false p tail)) (omega arith))
          (ap ok (program_fields-bytes false p tail pfits))
