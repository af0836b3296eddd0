-- ===== src/Kernel/Table/Search.antt =====
-- project2: the search for the system call table.
use native.Mathlib.Nat.{mod-lt}
use cs3013_operating_systems.Prelude.{
  ℕ, zero, suc, ◌+◌, ◌^◌, ◌≤◌, ◌<◌, ◌≡◌, ◌≢◌, arith, ltb, ◌==◌, Bool-cases, inl, inr,
}
use cs3013_operating_systems.Kernel.Table.{
  Platform, ullong_max, entry, next_offset, null, table, search_from, find_sys_call_table,
}

module _ (p : Platform) where
  -- The offset after so many rounds.
  abbrev pub offset_at : ℕ → ℕ → ℕ
  offset_at offset zero = offset
  offset_at offset (suc n) = offset_at (next_offset p offset) n

  -- The search would stop here: the word where the entry of `close` would be is its address.
  abbrev pub Looks : (ℕ → ℕ) → ℕ → Type 0
  Looks mem a = mem (entry p a p.nr_close) ≡ p.sys_close

  earlier :
      (mem : ℕ → ℕ) (offset n : ℕ)
      → ¬ Looks mem offset
      → ((i : ℕ) → i < n → ¬ Looks mem (offset_at (next_offset p offset) i))
      → (i : ℕ) → i < suc n
      → ¬ Looks mem (offset_at offset i)
  earlier mem offset n first later zero q = first
  earlier mem offset n first later (suc i) q = later i (omega arith)

  search_from_sound :
      (mem : ℕ → ℕ) (rounds offset t : ℕ)
      → search_from p mem rounds offset ≡ table t
      → t ≢ 0
      → (n : ℕ) × (n < rounds)
        × (t ≡ offset_at offset n)
        × Looks mem t
        × ((i : ℕ) → i < n → ¬ Looks mem (offset_at offset i))
  unfolding search_from
  search_from_sound mem zero offset t e nonzero = cc
  search_from_sound mem (suc rounds) offset t e nonzero =
      elim (Bool-cases (ltb offset ullong_max)) [
        | inr big ↦ absurd (nonzero (ground arith))
        | inl small ↦ elim (Bool-cases (mem (entry p offset p.nr_close) == p.sys_close)) [
          | inl here ↦ (0, omega arith, ground arith, ground arith, λ i q. absurd (omega arith))
          | inr there ↦
              let rest : search_from p mem rounds (next_offset p offset) ≡ table t = ground arith in
              let (n, lt, eq, looks, before) =
                search_from_sound mem rounds (next_offset p offset) t rest nonzero in
              (suc n, omega arith, eq, looks, earlier mem offset n (ground arith) before)
        ]
      ]

  search_from_complete :
      (mem : ℕ → ℕ) (rounds offset n : ℕ)
      → n < rounds
      → Looks mem (offset_at offset n)
      → ((i : ℕ) → i < n → ¬ Looks mem (offset_at offset i))
      → ((i : ℕ) → i ≤ n → offset_at offset i < ullong_max)
      → search_from p mem rounds offset ≡ table (offset_at offset n)
  unfolding search_from
  search_from_complete mem zero offset n h l before small = absurd (omega arith)
  search_from_complete mem (suc rounds) offset zero h l before small = ground (arith, small 0)
  search_from_complete mem (suc rounds) offset (suc n) h l before small = ground (
    arith,
    small 0,
    before 0,
    search_from_complete mem rounds (next_offset p offset) n (omega arith) l
        (λ i q. before (suc i) (omega arith)) (λ i q. small (suc i) (omega arith)),
  )

  ne_null :
      (mem : ℕ → ℕ) (rounds offset : ℕ)
      → 2 ^ p.long_bits ≤ ullong_max
      → ¬ Looks mem 0
      → offset < 2 ^ p.long_bits
      → search_from p mem rounds offset ≢ null
  unfolding search_from
  ne_null mem zero offset b none s = ground arith
  ne_null mem (suc rounds) offset b none s = ground (
    arith,
    none_at offset none,
    ne_null mem rounds (next_offset p offset) b none (mod-lt (offset + p.word) (omega arith)),
  )
    where
      none_at : (a : ℕ) → ¬ Looks mem 0 → mem (entry p a p.nr_close) ≡ p.sys_close → a ≢ 0
      none_at zero none e z = none e
      none_at (suc a) none e z = omega arith

  -- With an `unsigned long` narrower than 64 bits the test of the `while` never fails, since it is
  -- against the greatest 64-bit number: the search returns NULL for no memory in which a table at
  -- the address 0 would not look like the right one, however many rounds it runs.
  pub find_sys_call_table-ne-null :
      (mem : ℕ → ℕ) (rounds : ℕ)
      → 2 ^ p.long_bits ≤ ullong_max
      → p.page_offset < 2 ^ p.long_bits
      → ¬ Looks mem 0
      → find_sys_call_table p mem rounds ≢ null
  unfolding find_sys_call_table
  find_sys_call_table-ne-null mem rounds b small none =
      ne_null mem rounds p.page_offset b none small

  -- A table that the search returns within some rounds, and is not NULL, is at the first of its offsets whose entry of
  -- `close` holds the address of `sys_close`.
  pub find_sys_call_table-first :
      (mem : ℕ → ℕ) (rounds t : ℕ)
      → find_sys_call_table p mem rounds ≡ table t
      → t ≢ 0
      → (n : ℕ) × (n < rounds)
        × (t ≡ offset_at p.page_offset n)
        × Looks mem t
        × ((i : ℕ) → i < n → ¬ Looks mem (offset_at p.page_offset i))
  unfolding find_sys_call_table
  find_sys_call_table-first mem rounds t e nonzero =
      search_from_sound mem rounds p.page_offset t e nonzero

  -- If the entry of `close` of an offset holds the address of `sys_close`, that of no earlier offset
  -- does, and the test of the `while` holds up to it, then one round more than its number is enough
  -- for the search to return it.
  pub find_sys_call_table-finds :
      (mem : ℕ → ℕ) (rounds n : ℕ)
      → n < rounds
      → Looks mem (offset_at p.page_offset n)
      → ((i : ℕ) → i < n → ¬ Looks mem (offset_at p.page_offset i))
      → ((i : ℕ) → i ≤ n → offset_at p.page_offset i < ullong_max)
      → find_sys_call_table p mem rounds ≡ table (offset_at p.page_offset n)
  unfolding find_sys_call_table
  find_sys_call_table-finds mem rounds n h l before small =
      search_from_complete mem rounds p.page_offset n h l before small
