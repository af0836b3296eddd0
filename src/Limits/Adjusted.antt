-- ===== src/Limits/Adjusted.antt =====
-- preproj2/sys.c: the limit that is written, after the conversions.
use cs3013_operating_systems.Prelude.{
  ℕ, ◌^◌, ◌<◌, ◌≡◌, refl, sym, ◌∙◌, true, false, if◌then◌else◌, ◌==◌, ◌&&◌, arith, subst, ap,
}
use cs3013_operating_systems.Limits.{
  Rlimit, Platform, Kernel, narrow, rlim_to_rlim64, rlim64_to_rlim, adjusted,
}
use cs3013_operating_systems.Limits.Words.{
  LongWords, readable, narrow-zero, narrow-one, rlim_to_rlim64-rlim64_to_rlim,
}

module _ (p : Platform) (k : Kernel) where
  adjusted-rlim64_to_rlim :
      LongWords p
      → (resource : ℕ) (new : Rlimit) → new.rlim_cur < 2 ^ 64
      → adjusted p k resource (rlim64_to_rlim p new) ≡ rlim64_to_rlim p (adjusted p k resource new)
  unfolding adjusted rlim64_to_rlim
  adjusted-rlim64_to_rlim w resource new c =
      let l : Rlimit = record {
        rlim_cur = narrow p new.rlim_cur;
        rlim_max = narrow p new.rlim_max;
      } in
      subst
        (λ z.
          (if resource == p.rlimit_cpu && z then record l { rlim_cur = 1 } else l)
          ≡ rlim64_to_rlim p (adjusted p k resource new))
        (sym (narrow-zero p w new.rlim_cur c))
        (elim (resource == p.rlimit_cpu && new.rlim_cur == 0)
          as (λ b.
            (if b then record l { rlim_cur = 1 } else l)
            ≡ rlim64_to_rlim p (if b then record new { rlim_cur = 1 } else new)) [
              | true ↦ ap {A = ℕ} (λ n. record l { rlim_cur = n }) (sym (narrow-one p w))
              | false ↦ refl
            ])

  adjusted-bounds :
      (resource : ℕ) (new : Rlimit)
      → new.rlim_cur < 2 ^ 64
      → ((adjusted p k resource new).rlim_cur < 2 ^ 64)
        × ((adjusted p k resource new).rlim_max ≡ new.rlim_max)
  unfolding adjusted
  adjusted-bounds resource new c = ground arith

  -- What the conversions make of the limit that is written.
  abbrev pub readback : ℕ → Rlimit → Rlimit
  readback resource new = record {
    rlim_cur = readable p (adjusted p k resource new).rlim_cur;
    rlim_max = readable p new.rlim_max;
  }

  pub adjusted_words :
      LongWords p
      → (resource : ℕ) (new : Rlimit) → new.rlim_cur < 2 ^ 64
      → new.rlim_max < 2 ^ 64
      → rlim_to_rlim64 p (adjusted p k resource (rlim64_to_rlim p new)) ≡ readback resource new
  adjusted_words w resource new c m =
      let l = adjusted p k resource new in
      let (in_range, same_max) = adjusted-bounds resource new c in
      ap {A = Rlimit} (λ x. rlim_to_rlim64 p x) (adjusted-rlim64_to_rlim w resource new c)
      ∙ rlim_to_rlim64-rlim64_to_rlim p w l in_range (omega (arith, same_max))
      ∙ ap {A = ℕ} (λ n. record { rlim_cur = readable p l.rlim_cur; rlim_max = readable p n })
          same_max
