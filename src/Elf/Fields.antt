-- ===== src/Elf/Fields.antt =====
-- The fields of a header at their places in a file.
use scarlet.Common.{ℕ, ◌^◌, ◌<◌, ◌≡◌, Bool, true, false, List, ◌∷◌, ◌++◌}
use scarlet.Elf.{ElfHeader, ProgramHeader, header_fields, program_fields}
use scarlet.Elf.Bytes.{bytes, read_bytes-bytes}

-- The header as it stands in a file: the magic number, class, byte order, ten bytes that the kernel
-- does not read, and the fields.
abbrev pub header_bytes : Bool → ElfHeader → List ℕ → List ℕ
header_bytes little h tail =
    127
    ∷ 69
    ∷ 76
    ∷ 70
    ∷ h.ei_class
    ∷ h.ei_data
    ∷ 0
    ∷ 0
    ∷ 0
    ∷ 0
    ∷ 0
    ∷ 0
    ∷ 0
    ∷ 0
    ∷ 0
    ∷ 0
    ∷ (bytes little 2 h.e_type
        ++ (bytes little 2 h.e_machine
            ++ (bytes little 4 h.e_version
                ++ (bytes little 8 h.e_entry
                    ++ (bytes little 8 h.e_phoff
                        ++ (bytes little 8 h.e_shoff
                            ++ (bytes little 4 h.e_flags
                                ++ (bytes little 2 h.e_ehsize
                                    ++ (bytes little 2 h.e_phentsize
                                        ++ (bytes little 2 h.e_phnum
                                            ++ (bytes little 2 h.e_shentsize
                                                ++ (bytes little 2 h.e_shnum
                                                    ++ (bytes little 2 h.e_shstrndx
                                                        ++ tail)))))))))))))

abbrev pub program_bytes : Bool → ProgramHeader → List ℕ → List ℕ
program_bytes little h tail =
    bytes little 4 h.p_type
    ++ (bytes little 4 h.p_flags
        ++ (bytes little 8 h.p_offset
            ++ (bytes little 8 h.p_vaddr
                ++ (bytes little 8 h.p_paddr
                    ++ (bytes little 8 h.p_filesz
                        ++ (bytes little 8 h.p_memsz ++ (bytes little 8 h.p_align ++ tail)))))))

-- Every field fits its width.
pub record HeaderFits (h : ElfHeader) : Type 0 where
  pub e_type_fits : h.e_type < 256 ^ 2
  pub e_machine_fits : h.e_machine < 256 ^ 2
  pub e_version_fits : h.e_version < 256 ^ 4
  pub e_entry_fits : h.e_entry < 256 ^ 8
  pub e_phoff_fits : h.e_phoff < 256 ^ 8
  pub e_shoff_fits : h.e_shoff < 256 ^ 8
  pub e_flags_fits : h.e_flags < 256 ^ 4
  pub e_ehsize_fits : h.e_ehsize < 256 ^ 2
  pub e_phentsize_fits : h.e_phentsize < 256 ^ 2
  pub e_phnum_fits : h.e_phnum < 256 ^ 2
  pub e_shentsize_fits : h.e_shentsize < 256 ^ 2
  pub e_shnum_fits : h.e_shnum < 256 ^ 2
  pub e_shstrndx_fits : h.e_shstrndx < 256 ^ 2

pub record ProgramFits (h : ProgramHeader) : Type 0 where
  pub p_type_fits : h.p_type < 256 ^ 4
  pub p_flags_fits : h.p_flags < 256 ^ 4
  pub p_offset_fits : h.p_offset < 256 ^ 8
  pub p_vaddr_fits : h.p_vaddr < 256 ^ 8
  pub p_paddr_fits : h.p_paddr < 256 ^ 8
  pub p_filesz_fits : h.p_filesz < 256 ^ 8
  pub p_memsz_fits : h.p_memsz < 256 ^ 8
  pub p_align_fits : h.p_align < 256 ^ 8

program_of : ℕ → ℕ → ℕ → ℕ → ℕ → ℕ → ℕ → ℕ → ProgramHeader
program_of x0 x1 x2 x3 x4 x5 x6 x7 = record {
  p_type = x0;
  p_flags = x1;
  p_offset = x2;
  p_vaddr = x3;
  p_paddr = x4;
  p_filesz = x5;
  p_memsz = x6;
  p_align = x7;
}

program_of-same :
    (x0 y0 x1 y1 x2 y2 x3 y3 x4 y4 x5 y5 x6 y6 x7 y7 : ℕ)
    → x0 ≡ y0
    → x1 ≡ y1
    → x2 ≡ y2
    → x3 ≡ y3
    → x4 ≡ y4
    → x5 ≡ y5
    → x6 ≡ y6
    → x7 ≡ y7
    → program_of x0 x1 x2 x3 x4 x5 x6 x7 ≡ program_of y0 y1 y2 y3 y4 y5 y6 y7
program_of-same x0 y0 x1 y1 x2 y2 x3 y3 x4 y4 x5 y5 x6 y6 x7 y7 e0 e1 e2 e3 e4 e5 e6 e7 = cc

pub program_fields-bytes :
    (little : Bool) (h : ProgramHeader) (tail : List ℕ)
    → ProgramFits h
    → program_fields (program_bytes little h tail) little ≡ h
unfolding program_of
program_fields-bytes true h tail f =
    program_of-same _ _ _ _ _ _ _ _ _ _ _ _ _ _ _ _ (read_bytes-bytes true 4 h.p_type f.p_type_fits)
      (read_bytes-bytes true 4 h.p_flags f.p_flags_fits)
      (read_bytes-bytes true 8 h.p_offset f.p_offset_fits)
      (read_bytes-bytes true 8 h.p_vaddr f.p_vaddr_fits)
      (read_bytes-bytes true 8 h.p_paddr f.p_paddr_fits)
      (read_bytes-bytes true 8 h.p_filesz f.p_filesz_fits)
      (read_bytes-bytes true 8 h.p_memsz f.p_memsz_fits)
      (read_bytes-bytes true 8 h.p_align f.p_align_fits)
program_fields-bytes false h tail f =
    program_of-same _ _ _ _ _ _ _ _ _ _ _ _ _ _ _ _
      (read_bytes-bytes false 4 h.p_type f.p_type_fits)
      (read_bytes-bytes false 4 h.p_flags f.p_flags_fits)
      (read_bytes-bytes false 8 h.p_offset f.p_offset_fits)
      (read_bytes-bytes false 8 h.p_vaddr f.p_vaddr_fits)
      (read_bytes-bytes false 8 h.p_paddr f.p_paddr_fits)
      (read_bytes-bytes false 8 h.p_filesz f.p_filesz_fits)
      (read_bytes-bytes false 8 h.p_memsz f.p_memsz_fits)
      (read_bytes-bytes false 8 h.p_align f.p_align_fits)

header_of : ℕ → ℕ → ℕ → ℕ → ℕ → ℕ → ℕ → ℕ → ℕ → ℕ → ℕ → ℕ → ℕ → ℕ → ℕ → ElfHeader
header_of ei_class ei_data x0 x1 x2 x3 x4 x5 x6 x7 x8 x9 x10 x11 x12 = record {
  ei_class = ei_class;
  ei_data = ei_data;
  e_type = x0;
  e_machine = x1;
  e_version = x2;
  e_entry = x3;
  e_phoff = x4;
  e_shoff = x5;
  e_flags = x6;
  e_ehsize = x7;
  e_phentsize = x8;
  e_phnum = x9;
  e_shentsize = x10;
  e_shnum = x11;
  e_shstrndx = x12;
}

header_of-same :
    (ei_class ei_data x0 y0 x1 y1 x2 y2 x3 y3 x4 y4 x5 y5 x6 y6 x7 y7 x8 y8 x9 y9 x10 y10 x11 y11
      x12 y12 : ℕ)
    → x0 ≡ y0
    → x1 ≡ y1
    → x2 ≡ y2
    → x3 ≡ y3
    → x4 ≡ y4
    → x5 ≡ y5
    → x6 ≡ y6
    → x7 ≡ y7
    → x8 ≡ y8
    → x9 ≡ y9
    → x10 ≡ y10
    → x11 ≡ y11
    → x12 ≡ y12
    → header_of ei_class ei_data x0 x1 x2 x3 x4 x5 x6 x7 x8 x9 x10 x11 x12
      ≡ header_of ei_class ei_data y0 y1 y2 y3 y4 y5 y6 y7 y8 y9 y10 y11 y12
header_of-same ei_class ei_data x0 y0 x1 y1 x2 y2 x3 y3 x4 y4 x5 y5 x6 y6 x7 y7 x8 y8 x9 y9 x10 y10
      x11 y11 x12 y12 e0 e1 e2 e3 e4 e5 e6 e7 e8 e9 e10 e11 e12 =
    cc

pub header_fields-bytes :
    (little : Bool) (h : ElfHeader) (tail : List ℕ)
    → HeaderFits h
    → header_fields (header_bytes little h tail) little ≡ h
unfolding header_of
header_fields-bytes true h tail f =
    header_of-same h.ei_class h.ei_data _ _ _ _ _ _ _ _ _ _ _ _ _ _ _ _ _ _ _ _ _ _ _ _ _ _
      (read_bytes-bytes true 2 h.e_type f.e_type_fits)
      (read_bytes-bytes true 2 h.e_machine f.e_machine_fits)
      (read_bytes-bytes true 4 h.e_version f.e_version_fits)
      (read_bytes-bytes true 8 h.e_entry f.e_entry_fits)
      (read_bytes-bytes true 8 h.e_phoff f.e_phoff_fits)
      (read_bytes-bytes true 8 h.e_shoff f.e_shoff_fits)
      (read_bytes-bytes true 4 h.e_flags f.e_flags_fits)
      (read_bytes-bytes true 2 h.e_ehsize f.e_ehsize_fits)
      (read_bytes-bytes true 2 h.e_phentsize f.e_phentsize_fits)
      (read_bytes-bytes true 2 h.e_phnum f.e_phnum_fits)
      (read_bytes-bytes true 2 h.e_shentsize f.e_shentsize_fits)
      (read_bytes-bytes true 2 h.e_shnum f.e_shnum_fits)
      (read_bytes-bytes true 2 h.e_shstrndx f.e_shstrndx_fits)
header_fields-bytes false h tail f =
    header_of-same h.ei_class h.ei_data _ _ _ _ _ _ _ _ _ _ _ _ _ _ _ _ _ _ _ _ _ _ _ _ _ _
      (read_bytes-bytes false 2 h.e_type f.e_type_fits)
      (read_bytes-bytes false 2 h.e_machine f.e_machine_fits)
      (read_bytes-bytes false 4 h.e_version f.e_version_fits)
      (read_bytes-bytes false 8 h.e_entry f.e_entry_fits)
      (read_bytes-bytes false 8 h.e_phoff f.e_phoff_fits)
      (read_bytes-bytes false 8 h.e_shoff f.e_shoff_fits)
      (read_bytes-bytes false 4 h.e_flags f.e_flags_fits)
      (read_bytes-bytes false 2 h.e_ehsize f.e_ehsize_fits)
      (read_bytes-bytes false 2 h.e_phentsize f.e_phentsize_fits)
      (read_bytes-bytes false 2 h.e_phnum f.e_phnum_fits)
      (read_bytes-bytes false 2 h.e_shentsize f.e_shentsize_fits)
      (read_bytes-bytes false 2 h.e_shnum f.e_shnum_fits)
      (read_bytes-bytes false 2 h.e_shstrndx f.e_shstrndx_fits)
