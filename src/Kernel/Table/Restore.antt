-- ===== src/Kernel/Table/Restore.antt =====
-- project2: loading and unloading a module.
use cs3013_operating_systems.Prelude.{
  ℕ, zero, suc, ◌==◌, if◌then◌else◌, ◌+◌, ◌-◌, ◌*◌, ◌/◌, ◌%◌, ◌^◌, ◌≡◌, refl, sym, ◌∙◌, ◌≢◌, some,
  arith, fun_ext, subst,
}
use cs3013_operating_systems.Kernel.Table.{
  Platform, Machine, wp, disable_page_protection, enable_page_protection, poke, entry, Found,
  searching, table, on_found, openclose_on_found, find_sys_call_table, Load, loaded, cancelled,
  interceptor_start, start_at, interceptor_end, openclose_start, openclose_end, openclose_at,
}

-- Turning protection off clears bit 16 and turning it on sets it; on after off gives the register
-- with bit 16 set and all other bits as they were.
pub page_protection :
    (m : Machine)
    → (wp (disable_page_protection m).cr0 ≡ 0)
      × (wp (enable_page_protection (disable_page_protection m)).cr0 ≡ 1)
      × ((enable_page_protection (disable_page_protection m)).cr0 % 2 ^ 16 ≡ m.cr0 % 2 ^ 16)
      × ((enable_page_protection (disable_page_protection m)).cr0 / 2 ^ 17 ≡ m.cr0 / 2 ^ 17)
unfolding disable_page_protection enable_page_protection
page_protection m = omega arith

module _ (p : Platform) where
  -- Loading ends in the state `after`: protection is on, the entry holds the handler, and its old
  -- value is kept.
  pub record Loaded (nr handler t : ℕ) (m after : Machine) : Type 0 where
    pub protected : wp after.cr0 ≡ 1
    pub table_at : after.sys_call_table ≡ t
    pub replaced : after.mem ≡ poke m.mem (entry p t nr) handler
    pub kept : after.ref_syscall2 ≡ m.mem (entry p t nr)

  -- Where the search has found a table, loading does not fault: write protection is off while the
  -- entry is written, and on again behind it. Only the entry of the call is changed, to the
  -- handler, and its old value is kept for unloading.
  pub start_at-Loaded :
      (nr handler : ℕ) (m : Machine) (t : ℕ)
      → (after : Machine) × (start_at p nr handler m t ≡ loaded after) × Loaded nr handler t m after
  unfolding start_at
  start_at-Loaded nr handler m t = (
    record {
      cr0 = m.cr0 - wp m.cr0 * 2 ^ 16 + (1 - wp (m.cr0 - wp m.cr0 * 2 ^ 16)) * 2 ^ 16;
      mem = poke m.mem (entry p t nr) handler;
      sys_call_table = t;
      ref_syscall1 = m.ref_syscall1;
      ref_syscall2 = m.mem (entry p t nr);
    },
    ground arith,
    record { protected = omega arith; table_at = refl; replaced = refl; kept = refl },
  )

  poke-restore : (mem : ℕ → ℕ) (a v : ℕ) → poke (poke mem a v) a (mem a) ≡ mem
  poke-restore mem a v = fun_ext λ b. ground arith

  loaded-injective : {a b : Machine} → ◌≡◌ {A = Load} (loaded a) (loaded b) → a ≡ b
  loaded-injective e = cc

  start_at_sound :
      (nr handler t : ℕ) (m after : Machine)
      → start_at p nr handler m t ≡ loaded after
      → Loaded nr handler t m after
  start_at_sound nr handler t m after e =
      let (done, f, l) = start_at-Loaded nr handler m t in
      subst (λ a. Loaded nr handler t m a) (loaded-injective (sym f ∙ e)) l

  -- NULL cancels the load.
  not_cancelled :
      (t : ℕ) (m after : Machine) (l : Load)
      → (if t == 0 then cancelled m else l) ≡ loaded after
      → (t ≢ 0) × (l ≡ loaded after)
  not_cancelled zero m after l e = cc
  not_cancelled (suc t) m after l e = ((λ z. omega arith), ground (arith, e))

  -- A load that succeeds has found a table.
  on_found-table :
      (nr handler : ℕ) (m after : Machine) (f : Found)
      → on_found p nr handler m f ≡ loaded after
      → (t : ℕ) × (t ≢ 0) × (start_at p nr handler m t ≡ loaded after)
  unfolding on_found
  on_found-table nr handler m after searching e = cc
  on_found-table nr handler m after (table t) e =
      let (nonzero, f) =
        not_cancelled t (record m { sys_call_table = 0 }) after (start_at p nr handler m t) e in
      (t, nonzero, f)

  unloaded :
      (nr handler t : ℕ) (m after : Machine)
      → Loaded nr handler t m after
      → after.sys_call_table ≢ 0
      → (final : Machine) × (interceptor_end p nr after ≡ some final)
        × (final.mem ≡ m.mem)
        × (wp final.cr0 ≡ 1)
  unfolding interceptor_end
  unloaded nr handler t m after l nonzero = (
    record after {
      cr0 =
          after.cr0 - wp after.cr0 * 2 ^ 16 + (1 - wp (after.cr0 - wp after.cr0 * 2 ^ 16)) * 2 ^ 16;
      mem = poke after.mem (entry p after.sys_call_table nr) after.ref_syscall2;
    },
    ground arith,
    rw (l.table_at, l.replaced, l.kept) (poke-restore m.mem (entry p t nr) handler),
    omega arith,
  )

  -- Unloading a module that was loaded does not fault, and leaves the memory as it was before the
  -- loading, at every address, with write protection on; provided that the memory was not changed in
  -- between.
  pub load-unload_restores :
      (rounds nr handler : ℕ) (m after : Machine)
      → interceptor_start p rounds nr handler m ≡ loaded after
      → (final : Machine) × (interceptor_end p nr after ≡ some final)
        × (final.mem ≡ m.mem)
        × (wp final.cr0 ≡ 1)
  unfolding interceptor_start
  load-unload_restores rounds nr handler m after e =
      let (t, nonzero, f) =
        on_found-table nr handler m after (find_sys_call_table p m.mem rounds) e in
      let l = start_at_sound nr handler t m after f in
      unloaded nr handler t m after l (λ z. nonzero (sym l.table_at ∙ z))

  openclose_on_found-table :
      (nr_open opens closes : ℕ) (m after : Machine) (f : Found)
      → openclose_on_found p nr_open opens closes m f ≡ loaded after
      → (t : ℕ) × (t ≢ 0) × (openclose_at p nr_open opens closes m t ≡ loaded after)
  unfolding openclose_on_found
  openclose_on_found-table nr_open opens closes m after searching e = cc
  openclose_on_found-table nr_open opens closes m after (table t) e =
      let (nonzero, f) =
        not_cancelled t (record m { sys_call_table = 0 }) after
          (openclose_at p nr_open opens closes m t) e in
      (t, nonzero, f)

  -- What openclose.c leaves after loading.
  pub record BothLoaded (nr_open opens closes t : ℕ) (m after : Machine) : Type 0 where
    pub table_at : after.sys_call_table ≡ t
    pub replaced :
        after.mem ≡ poke (poke m.mem (entry p t nr_open) opens) (entry p t p.nr_close) closes
    pub kept_open : after.ref_syscall1 ≡ m.mem (entry p t nr_open)
    pub kept_close : after.ref_syscall2 ≡ m.mem (entry p t p.nr_close)

  openclose_at-BothLoaded :
      (nr_open opens closes : ℕ) (m : Machine) (t : ℕ)
      → (after : Machine) × (openclose_at p nr_open opens closes m t ≡ loaded after)
        × BothLoaded nr_open opens closes t m after
  unfolding openclose_at
  openclose_at-BothLoaded nr_open opens closes m t = (
    record {
      cr0 = m.cr0 - wp m.cr0 * 2 ^ 16 + (1 - wp (m.cr0 - wp m.cr0 * 2 ^ 16)) * 2 ^ 16;
      mem = poke (poke m.mem (entry p t nr_open) opens) (entry p t p.nr_close) closes;
      sys_call_table = t;
      ref_syscall1 = m.mem (entry p t nr_open);
      ref_syscall2 = m.mem (entry p t p.nr_close);
    },
    ground arith,
    record { table_at = refl; replaced = refl; kept_open = refl; kept_close = refl },
  )

  poke-restore_two :
      (mem : ℕ → ℕ) (a b v w : ℕ)
      → a ≢ b
      → poke (poke (poke (poke mem a v) b w) a (mem a)) b (mem b) ≡ mem
  poke-restore_two mem a b v w n = fun_ext λ c. ground arith

  both_unloaded :
      (nr_open opens closes t : ℕ) (m after : Machine)
      → entry p t nr_open ≢ entry p t p.nr_close
      → BothLoaded nr_open opens closes t m after
      → after.sys_call_table ≢ 0
      → (final : Machine) × (openclose_end p nr_open after ≡ some final)
        × (final.mem ≡ m.mem)
        × (wp final.cr0 ≡ 1)
  unfolding openclose_end
  both_unloaded nr_open opens closes t m after apart l nonzero = (
    record after {
      cr0 =
          after.cr0 - wp after.cr0 * 2 ^ 16 + (1 - wp (after.cr0 - wp after.cr0 * 2 ^ 16)) * 2 ^ 16;
      mem =
          poke (poke after.mem (entry p after.sys_call_table nr_open) after.ref_syscall1)
            (entry p after.sys_call_table p.nr_close) after.ref_syscall2;
    },
    ground arith,
    rw (l.table_at, l.replaced, l.kept_open, l.kept_close)
        (poke-restore_two m.mem (entry p t nr_open) (entry p t p.nr_close) opens closes apart),
    omega arith,
  )

  pub openclose_start_sound :
      (rounds nr_open opens closes : ℕ) (m after : Machine)
      → openclose_start p rounds nr_open opens closes m ≡ loaded after
      → (t : ℕ) × (t ≢ 0) × BothLoaded nr_open opens closes t m after
  unfolding openclose_start
  openclose_start_sound rounds nr_open opens closes m after e =
      let (t, nonzero, f) =
        openclose_on_found-table nr_open opens closes m after (find_sys_call_table p m.mem rounds)
          e in
      let (done, g, l) = openclose_at-BothLoaded nr_open opens closes m t in
      (
        t,
        nonzero,
        subst (λ a. BothLoaded nr_open opens closes t m a) (loaded-injective (sym g ∙ f)) l,
      )

  -- Unloading openclose.c, which replaces `open` and `close`, after a load that succeeded does not
  -- fault, and leaves the memory as it was before the loading, at every address, with write
  -- protection on; provided that the entries of `open` and `close` are two, and that the memory was
  -- not changed in between.
  pub openclose_restores :
      (rounds nr_open opens closes : ℕ) (m after : Machine)
      → openclose_start p rounds nr_open opens closes m ≡ loaded after
      → entry p after.sys_call_table nr_open ≢ entry p after.sys_call_table p.nr_close
      → (final : Machine) × (openclose_end p nr_open after ≡ some final)
        × (final.mem ≡ m.mem)
        × (wp final.cr0 ≡ 1)
  openclose_restores rounds nr_open opens closes m after e apart =
      let (t, nonzero, l') = openclose_start_sound rounds nr_open opens closes m after e in
      both_unloaded nr_open opens closes t m after
        (subst (λ b. entry p b nr_open ≢ entry p b p.nr_close) l'.table_at apart) l'
        (λ z. nonzero (sym l'.table_at ∙ z))
