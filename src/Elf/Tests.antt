-- ===== src/Elf/Tests.antt =====
-- The round trip of headers at a concrete one, and headers that are refused.
use scarlet.Common.{◌==◌, replicate, ◌≡◌, refl, Bool, true, [], arith}
use scarlet.Elf.{
  ElfHeader, ProgramHeader, invalid_magic_number, unsupported_class, invalid_data, invalid_size, ok,
  err, elfdata2lsb, parse_header, parse_program,
}
use scarlet.Elf.Fields.{header_bytes, program_bytes, HeaderFits, ProgramFits}
use scarlet.Elf.RoundTrip.{parse-bytes}

abbrev header : ElfHeader
header = record {
  ei_class = 2;
  ei_data = 1;
  e_type = 2;
  e_machine = 243;
  e_version = 1;
  e_entry = 65700;
  e_phoff = 64;
  e_shoff = 4096;
  e_flags = 5;
  e_ehsize = 64;
  e_phentsize = 56;
  e_phnum = 2;
  e_shentsize = 64;
  e_shnum = 3;
  e_shstrndx = 2;
}

abbrev segment : ProgramHeader
segment = record {
  p_type = 1;
  p_flags = 5;
  p_offset = 4096;
  p_vaddr = 65536;
  p_paddr = 65536;
  p_filesz = 300;
  p_memsz = 512;
  p_align = 4096;
}

header-HeaderFits : HeaderFits header
header-HeaderFits = record {
  e_type_fits = omega arith;
  e_machine_fits = omega arith;
  e_version_fits = omega arith;
  e_entry_fits = omega arith;
  e_phoff_fits = omega arith;
  e_shoff_fits = omega arith;
  e_flags_fits = omega arith;
  e_ehsize_fits = omega arith;
  e_phentsize_fits = omega arith;
  e_phnum_fits = omega arith;
  e_shentsize_fits = omega arith;
  e_shnum_fits = omega arith;
  e_shstrndx_fits = omega arith;
}

segment-ProgramFits : ProgramFits segment
segment-ProgramFits = record {
  p_type_fits = omega arith;
  p_flags_fits = omega arith;
  p_offset_fits = omega arith;
  p_vaddr_fits = omega arith;
  p_paddr_fits = omega arith;
  p_filesz_fits = omega arith;
  p_memsz_fits = omega arith;
  p_align_fits = omega arith;
}

parse-bytes_example :
    (parse_header (header_bytes (header.ei_data == elfdata2lsb) header []) ≡ ok header)
    × ((little : Bool) → parse_program (program_bytes little segment []) little ≡ ok segment)
parse-bytes_example = parse-bytes header segment [] refl header-HeaderFits segment-ProgramFits

-- Too short, of another format, and of a 32-bit file.
refused :
    (parse_header [] ≡ err invalid_data)
    × (parse_header (replicate 64 0) ≡ err invalid_magic_number)
    × (parse_header (header_bytes true (record header { ei_class = 1 }) []) ≡ err unsupported_class)
    × (parse_program (replicate 55 0) true ≡ err invalid_size)
unfolding parse_header parse_program replicate
refused = (refl, refl, refl, refl)
