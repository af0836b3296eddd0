-- ===== src/Kernel/Handlers/Transparent.antt =====
-- project2/openclose.c: with the module loaded the calls return what they returned before; those of
-- `open` and `close` are logged.
use cs3013_operating_systems.Prelude.{
  ℕ, ◌<◌, ◌≡◌, sym, ◌∙◌, ◌≢◌, subst, List, [], ◌∷◌, leb, ◌==◌, if◌then◌else◌, arith, ℕ_discrete,
}
use cs3013_operating_systems.Prelude.Int.{ℤ}
use cs3013_operating_systems.Kernel.Table.{Platform, Machine, entry, loaded, openclose_start}
use cs3013_operating_systems.Kernel.Table.Restore.{BothLoaded, openclose_start_sound}
use cs3013_operating_systems.Kernel.Handlers.{
  Line, opening, closing, Reply, Arguments, Functions, system_call,
}

-- What a call should log: a line for `open` and one for `close`, by users from 1000 on.
abbrev pub promised_log : ℕ → ℕ → ℕ → ℕ → ℤ → List Line
promised_log nr nr_open nr_close uid first =
    if leb 1000 uid
    then (if nr == nr_open
        then opening uid first ∷ []
        else if nr == nr_close
        then closing uid first ∷ []
        else [])
    else []

module _ (functions : Functions) (p : Platform) (opens closes nr_open : ℕ) (t : ℕ)
    (m after : Machine) (l : BothLoaded p nr_open opens closes t m after) (nr uid : ℕ)
    (a : Arguments) where
  open_call :
      entry p t nr_open ≢ entry p t p.nr_close
      → system_call functions p opens closes t nr_open uid after a ≡ record {
        log = if leb 1000 uid then opening uid a.first ∷ [] else [];
        value = functions (m.mem (entry p t nr_open)) a;
      }
  unfolding system_call
  open_call apart = rw (l.replaced, l.kept_open) (ground arith)

  close_call :
      opens ≢ closes
      → system_call functions p opens closes t p.nr_close uid after a ≡ record {
        log = if leb 1000 uid then closing uid a.first ∷ [] else [];
        value = functions (m.mem (entry p t p.nr_close)) a;
      }
  unfolding system_call
  close_call apart = rw (l.replaced, l.kept_close) (ground arith)

  other_call :
      entry p t nr_open ≢ entry p t nr
      → entry p t p.nr_close ≢ entry p t nr
      → m.mem (entry p t nr) ≢ opens
      → m.mem (entry p t nr) ≢ closes
      → system_call functions p opens closes t nr uid after a
        ≡ record { log = []; value = functions (m.mem (entry p t nr)) a }
  unfolding system_call
  other_call x y z w = rw (l.replaced) (ground arith)

module _ (p : Platform) where
  -- The entries of the table's first `calls` calls are at different addresses.
  abbrev pub Apart : ℕ → ℕ → Type 0
  Apart t calls = (i j : ℕ) → i < calls → j < calls → entry p t i ≡ entry p t j → i ≡ j

  -- None of them leads to one of these functions.
  abbrev pub Unhooked : Machine → ℕ → ℕ → ℕ → ℕ → Type 0
  Unhooked m opens closes t calls =
      (i : ℕ) → i < calls → (m.mem (entry p t i) ≢ opens) × (m.mem (entry p t i) ≢ closes)

-- The reply that transparency promises for a call.
abbrev pub promised : Functions → Platform → ℕ → ℕ → Machine → ℕ → ℕ → Arguments → Reply
promised functions p nr_open t m nr uid a = record {
  log = promised_log nr nr_open p.nr_close uid a.first;
  value = functions (m.mem (entry p t nr)) a;
}

module _ (functions : Functions) (p : Platform) (opens closes nr_open calls : ℕ)
    (m after : Machine) where
  transparent_after :
      (t : ℕ)
      → BothLoaded p nr_open opens closes t m after
      → nr_open < calls
      → p.nr_close < calls
      → nr_open ≢ p.nr_close
      → opens ≢ closes
      → Apart p t calls
      → Unhooked p m opens closes t calls
      → (nr uid : ℕ) (a : Arguments) → nr < calls
      → system_call functions p opens closes t nr uid after a
        ≡ promised functions p nr_open t m nr uid a
  transparent_after t l in_open in_close two handlers apart unhooked nr uid a in_nr =
      elim (ℕ_discrete nr nr_open) [
        | yes e ↦
            subst
              (λ k.
                system_call functions p opens closes t k uid after a
                ≡ promised functions p nr_open t m k uid a)
              (sym e)
              (open_call functions p opens closes nr_open t m after l nr uid a
                  (λ same. two (apart nr_open p.nr_close in_open in_close same))
                ∙ ground arith)
        | no not_open ↦ elim (ℕ_discrete nr p.nr_close) [
          | yes e ↦
              subst
                (λ k.
                  system_call functions p opens closes t k uid after a
                  ≡ promised functions p nr_open t m k uid a)
                (sym e)
                (close_call functions p opens closes nr_open t m after l nr uid a handlers
                  ∙ ground arith)
          | no not_close ↦
              other_call functions p opens closes nr_open t m after l nr uid a
                (λ same. not_open (sym (apart nr_open nr in_open in_nr same)))
                (λ same. not_close (sym (apart p.nr_close nr in_close in_nr same)))
                (unhooked nr in_nr).0 (unhooked nr in_nr).1
              ∙ ground arith
        ]
      ]

  -- Once openclose.c was loaded, every call of the table returns what the function that stood in
  -- its entry before returns; `open` and `close` by a user from 1000 on log a line each, and no
  -- other call logs anything. The entries of the calls lie apart, and none of them led to the
  -- module's own two functions before.
  pub system_call-transparent :
      (rounds : ℕ)
      → openclose_start p rounds nr_open opens closes m ≡ loaded after
      → nr_open < calls
      → p.nr_close < calls
      → nr_open ≢ p.nr_close
      → opens ≢ closes
      → Apart p after.sys_call_table calls
      → Unhooked p m opens closes after.sys_call_table calls
      → (nr uid : ℕ) (a : Arguments) → nr < calls
      → system_call functions p opens closes after.sys_call_table nr uid after a
        ≡ promised functions p nr_open after.sys_call_table m nr uid a
  system_call-transparent rounds e in_open in_close two handlers apart unhooked nr uid a in_nr =
      let (t, nonzero, l) = openclose_start_sound p rounds nr_open opens closes m after e in
      transparent_after after.sys_call_table (at_table t l) in_open in_close two handlers apart
        unhooked nr uid a in_nr
    where
      at_table :
          (t : ℕ)
          → BothLoaded p nr_open opens closes t m after
          → BothLoaded p nr_open opens closes after.sys_call_table m after
      at_table t l = subst (λ b. BothLoaded p nr_open opens closes b m after) (sym l.table_at) l
