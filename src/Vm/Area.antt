-- ===== src/Vm/Area.antt =====
-- kernel/src/vm/vmem.rs: memory areas, mappings and permissions. An area's bounds are inclusive.
use scarlet.Common.{
  ltb, leb, ◌==◌, if◌then◌else◌, usize_mod, ℕ, ◌+◌, ◌-◌, ◌%◌, ◌<◌, max, bit_and, bit_or, ◌≡◌, Bool,
  true, false, not, ◌&&◌, Option, none, some, arith,
}

pub record MemoryArea : Type 0 where
  pub start : ℕ
  pub end : ℕ

-- A weak reference to the object that made a mapping is its identity.
pub record VirtualMemoryMap : Type 0 where
  pub pmarea : MemoryArea
  pub vmarea : MemoryArea
  pub permissions : ℕ
  pub is_shared : Bool
  pub owner : Option ℕ

-- `usize` addition, as a release build wraps it.
abbrev pub add_usize : ℕ → ℕ → ℕ
add_usize a b = (a + b) % usize_mod

abbrev pub within : MemoryArea → ℕ → Bool
within a v = leb a.start v && leb v a.end

unfoldable pub get_paddr : VirtualMemoryMap → ℕ → Option ℕ
get_paddr m v =
    if within m.vmarea v then some (add_usize m.pmarea.start (v - m.vmarea.start)) else none

unfoldable pub from_ptr : ℕ → ℕ → MemoryArea
from_ptr ptr size = record {
  start = ptr;
  end = if ltb 0 size then add_usize ptr (size - 1) else ptr;
}

-- `none` is the panic of an area whose start lies behind its end.
unfoldable pub size : MemoryArea → Option ℕ
size a = if ltb a.end a.start then none else some (add_usize (a.end - a.start) 1)

pub data VirtualMemoryPermission : Type 0 where
  read write execute user : VirtualMemoryPermission

abbrev pub permission_bit : VirtualMemoryPermission → ℕ
permission_bit read = 0x01
permission_bit write = 0x02
permission_bit execute = 0x04
permission_bit user = 0x08

unfoldable pub contained_in : VirtualMemoryPermission → ℕ → Bool
contained_in p permissions = not (bit_and permissions (permission_bit p) == 0)

-- `From<usize>`: `none` is the panic.
unfoldable pub permission_of : ℕ → Option VirtualMemoryPermission
permission_of value =
    if value == 0x01
    then some read
    else if value == 0x02
    then some write
    else if value == 0x04
    then some execute
    else if value == 0x08
    then some user
    else none

pub data VirtualMemoryRegion : Type 0 where
  text data_region bss heap stack guard_region unknown : VirtualMemoryRegion

-- `none` is the panic of an unknown region.
unfoldable pub default_permissions : VirtualMemoryRegion → Option ℕ
default_permissions text = some (bit_or (bit_or 0x01 0x04) 0x08)
default_permissions data_region = some (bit_or (bit_or 0x01 0x02) 0x08)
default_permissions bss = some (bit_or (bit_or 0x01 0x02) 0x08)
default_permissions heap = some (bit_or (bit_or 0x01 0x02) 0x08)
default_permissions stack = some (bit_or (bit_or 0x01 0x02) 0x08)
default_permissions guard_region = some 0
default_permissions unknown = none

unfoldable pub is_shareable : VirtualMemoryRegion → Bool
is_shareable text = true
is_shareable data_region = false
is_shareable bss = false
is_shareable heap = false
is_shareable stack = false
is_shareable guard_region = true
is_shareable unknown = false

-- `from_ptr` and `size` are inverse: the area of a buffer that does not wrap has the buffer's size,
-- and an empty buffer is rounded up to one byte.
pub size-from_ptr : (ptr n : ℕ) → ptr + n < usize_mod → size (from_ptr ptr n) ≡ some (max n 1)
unfolding size from_ptr
size-from_ptr ptr n h = ground arith
