-- ===== src/Limits/Words.antt =====
-- preproj2/sys.c: limits as 64-bit numbers and back, and a limit that is read after it was set.
use cs3013_operating_systems.Prelude.{
  ℕ, ◌-◌, ◌^◌, ◌<◌, ◌≡◌, refl, ◌⊎◌, inl, inr, if◌then◌else◌, ◌==◌, leb, arith, subst,
}
use cs3013_operating_systems.Limits.{
  Rlimit, Platform, rlim64_is_infinity, widen, narrow, rlim_to_rlim64, rlim64_to_rlim,
}

-- An unsigned long has 32 or 64 bits, and RLIM_INFINITY is its greatest value.
abbrev pub LongWords : Platform → Type 0
LongWords p = (((p.long_bits ≡ 32) ⊎ (p.long_bits ≡ 64)) × (p.rlim_infinity ≡ 2 ^ p.long_bits - 1))

-- What becomes of a 64-bit limit: numbers that an unsigned long cannot tell from infinity are it.
abbrev pub readable : Platform → ℕ → ℕ
readable p n = if leb (2 ^ p.long_bits - 1) n then 2 ^ 64 - 1 else n

module _ (p : Platform) where
  narrow-widen : LongWords p → (n : ℕ) → n < 2 ^ p.long_bits → narrow p (widen p n) ≡ n
  unfolding rlim64_is_infinity
  narrow-widen (inl e, top) n q =
      let q' = subst (λ b. n < 2 ^ b) e q in rw (top, e) (ground (arith, q'))
  narrow-widen (inr e, top) n q =
      let q' = subst (λ b. n < 2 ^ b) e q in rw (top, e) (ground (arith, q'))

  widen-narrow : LongWords p → (n : ℕ) → n < 2 ^ 64 → widen p (narrow p n) ≡ readable p n
  unfolding rlim64_is_infinity
  widen-narrow (inl e, top) n q = rw (top, e) (ground arith)
  widen-narrow (inr e, top) n q = rw (top, e) (ground arith)

  pub rlim_to_rlim64-rlim64_to_rlim :
      LongWords p
      → (l : Rlimit) → l.rlim_cur < 2 ^ 64
      → l.rlim_max < 2 ^ 64
      → rlim_to_rlim64 p (rlim64_to_rlim p l)
        ≡ record { rlim_cur = readable p l.rlim_cur; rlim_max = readable p l.rlim_max }
  unfolding rlim64_to_rlim rlim_to_rlim64
  rlim_to_rlim64-rlim64_to_rlim w l c d =
      rw (widen-narrow w l.rlim_cur c, widen-narrow w l.rlim_max d) refl

  -- A limit becomes 64 bits wide and comes back as it was. A 64-bit limit that becomes an unsigned
  -- long comes back as it was too, but for numbers from 2 ^ 32 - 1 on where an unsigned long has 32
  -- bits, which come back as infinity.
  pub rlim64_to_rlim-rlim_to_rlim64 :
      LongWords p
      → (l m : Rlimit) → l.rlim_cur < 2 ^ p.long_bits
      → l.rlim_max < 2 ^ p.long_bits
      → m.rlim_cur < 2 ^ 64
      → m.rlim_max < 2 ^ 64
      → (rlim64_to_rlim p (rlim_to_rlim64 p l) ≡ l)
        × (rlim_to_rlim64 p (rlim64_to_rlim p m)
            ≡ record { rlim_cur = readable p m.rlim_cur; rlim_max = readable p m.rlim_max })
  unfolding rlim64_to_rlim rlim_to_rlim64
  rlim64_to_rlim-rlim_to_rlim64 w l m a b c d = (
    rw (narrow-widen w l.rlim_cur a, narrow-widen w l.rlim_max b) refl,
    rlim_to_rlim64-rlim64_to_rlim w m c d,
  )

  pub narrow-zero : LongWords p → (n : ℕ) → n < 2 ^ 64 → (narrow p n == 0) ≡ (n == 0)
  unfolding rlim64_is_infinity
  narrow-zero (inl e, top) n q = rw (top, e) (ground arith)
  narrow-zero (inr e, top) n q = rw (top, e) (ground arith)

  pub narrow-one : LongWords p → narrow p 1 ≡ 1
  unfolding rlim64_is_infinity
  narrow-one (inl e, top) = rw (top, e) (ground arith)
  narrow-one (inr e, top) = rw (top, e) (ground arith)
