-- ===== src/Common/Pointers.antt =====
-- What a function of the Linux kernel that returns a pointer can answer.
use linux_programing.Common.{Bool, true, false}

-- NULL, an error in the form of a pointer (`ERR_PTR`), or the address of an object.
pub data Pointer : Type 0 where
  null_ptr err_ptr valid_ptr : Pointer

-- A comparison with NULL does not see an error.
abbrev pub not_null : Pointer → Bool
not_null null_ptr = false
not_null err_ptr = true
not_null valid_ptr = true

abbrev pub exists : Pointer → Bool
exists null_ptr = false
exists err_ptr = false
exists valid_ptr = true
