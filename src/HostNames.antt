-- ===== src/HostNames.antt =====
-- preproj2/sys.c: the calls that set and get the names of the host and of its domain.
pub mod Readback
mod Tests
use cs3013_operating_systems.Prelude.{
  ℕ, ◌+◌, ◌-◌, Bool, true, false, not, ◌||◌, List, [], ◌∷◌, ◌++◌, Option, none, some, ltb, ◌==◌,
  if◌then◌else◌, length, take, replicate,
}
use cs3013_operating_systems.Prelude.Int.{ℤ, pos, negsuc, pos_part, ltb_ℤ}

-- `struct new_utsname`, as far as the calls use it: two arrays of bytes.
pub record Utsname : Type 0 where
  pub nodename : List ℕ
  pub domainname : List ℕ

-- The caller: CAP_SYS_ADMIN, what copying so many bytes from its buffer gives, and whether copies to
-- it succeed.
pub record Caller : Type 0 where
  pub capable : Bool
  pub copy_from_user : ℕ → Option (List ℕ)
  pub copies_out : Bool

-- -EPERM, -EFAULT and -EINVAL
abbrev pub eperm : ℤ
eperm = negsuc 0

abbrev pub efault : ℤ
efault = negsuc 13

abbrev pub einval : ℤ
einval = negsuc 21

-- `memcpy` of the bytes to the front of the array and `memset` of the rest of it.
unfoldable pub fill : List ℕ → List ℕ → List ℕ
fill tmp array = tmp ++ replicate (length array - length tmp) 0

-- The C library's count of the bytes before the first zero.
unfoldable pub strlen : List ℕ → ℕ
strlen [] = 0
strlen (c ∷ s) = let rest = strlen s in if c == 0 then 0 else 1 + rest

-- `max_len` is __NEW_UTS_LEN.
module _ (max_len : ℕ) where
  -- The bytes of a name, or the error.
  pub data Asked : Type 0 where
    refused : ℤ → Asked
    asked : List ℕ → Asked

  unfoldable pub new_name : Caller → ℤ → Asked
  new_name c len =
      if not c.capable
      then refused eperm
      else if ltb_ℤ len (pos 0) || ltb_ℤ (pos max_len) len
      then refused einval
      else elim (c.copy_from_user (pos_part len)) [ none ↦ refused efault | some tmp ↦ asked tmp ]

  unfoldable pub sethostname : Caller → ℤ → Utsname → ℤ × Utsname
  sethostname c len u = elim (new_name c len) [
    | refused error ↦ (error, u)
    | asked tmp ↦ (pos 0, record u { nodename = fill tmp u.nodename })
  ]

  unfoldable pub setdomainname : Caller → ℤ → Utsname → ℤ × Utsname
  setdomainname c len u = elim (new_name c len) [
    | refused error ↦ (error, u)
    | asked tmp ↦ (pos 0, record u { domainname = fill tmp u.domainname })
  ]

  -- The result, and the bytes that the caller's buffer gets.
  unfoldable pub gethostname : Caller → ℤ → Utsname → ℤ × Option (List ℕ)
  gethostname c len u =
      let i = 1 + strlen u.nodename in
      let i' = if ltb_ℤ len (pos i) then pos_part len else i in
      if ltb_ℤ len (pos 0)
      then (einval, none)
      else if c.copies_out
      then (pos 0, some (take i' u.nodename))
      else (efault, none)
