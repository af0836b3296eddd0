-- ===== src/Kernel/Handlers.antt =====
-- project2/module.c, project2/openclose.c and preproj2/sys.c: what the replaced calls and the added
-- ones do, and how a call reaches them through the table.
pub mod Transparent
use cs3013_operating_systems.Prelude.{ℕ, List, [], ◌∷◌, leb, ◌==◌, if◌then◌else◌}
use cs3013_operating_systems.Prelude.Int.{ℤ, pos}
use package.cs3013_operating_systems.Kernel.Table.{Platform, Machine, entry}

-- A line in the kernel's log.
pub data Line : Type 0 where
  goodbye_world : Line
  opening : ℕ → ℤ → Line  -- of this user, and this path
  closing : ℕ → ℤ → Line  -- of this user, and this file descriptor
  hello_world : ℕ → Line  -- of the added call of this number

pub record Reply : Type 0 where
  pub log : List Line
  pub value : ℤ

-- The arguments of a call, one after the other; a call that has fewer looks at the first ones.
pub record Arguments : Type 0 where
  pub first : ℤ
  pub second : ℤ
  pub third : ℤ

-- The kernel's own functions, by their addresses.
abbrev pub Functions : Type 0
Functions = ℕ → Arguments → ℤ

-- `new_sys_cs3013_syscall1` of module.c.
unfoldable pub goodbye : Reply
goodbye = record { log = goodbye_world ∷ []; value = pos 0 }

-- The calls that sys.c adds, by their numbers.
unfoldable pub added_call : ℕ → Reply
added_call k = record { log = hello_world k ∷ []; value = pos 0 }

module _ (functions : Functions) where
  -- `new_sys_cs3013_syscall1` and `new_sys_cs3013_syscall2` of openclose.c, for this user.
  unfoldable pub logged_open : ℕ → Machine → Arguments → Reply
  logged_open uid m a = record {
    log = if leb 1000 uid then opening uid a.first ∷ [] else [];
    value = functions m.ref_syscall1 a;
  }

  unfoldable pub logged_close : ℕ → Machine → Arguments → Reply
  logged_close uid m a = record {
    log = if leb 1000 uid then closing uid a.first ∷ [] else [];
    value = functions m.ref_syscall2 a;
  }

  module _ (p : Platform) (opens closes : ℕ) where
    -- The function at an address, where openclose.c stands at `opens` and `closes`.
    unfoldable pub call_at : ℕ → ℕ → Machine → Arguments → Reply
    unfolding logged_open logged_close
    call_at address uid m a =
        if address == opens
        then logged_open uid m a
        else if address == closes
        then logged_close uid m a
        else record { log = []; value = functions address a }

    -- A system call of number `nr` through the table at `table`.
    unfoldable pub system_call : ℕ → ℕ → ℕ → Machine → Arguments → Reply
    unfolding call_at
    system_call table nr uid m a = call_at (m.mem (entry p table nr)) uid m a
