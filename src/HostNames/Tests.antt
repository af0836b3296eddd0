-- ===== src/HostNames/Tests.antt =====
-- preproj2/sys.c: runs of the calls on the name of the host.
use cs3013_operating_systems.Prelude.{
  ℕ, ◌≡◌, refl, ap, ◌∙◌, length-take, length-replicate, List, [], ◌∷◌, some, true, length, take,
  replicate, arith,
}
use cs3013_operating_systems.Prelude.Int.{pos}
use cs3013_operating_systems.HostNames.{
  Utsname, Caller, sethostname, setdomainname, gethostname, new_name, fill, strlen, einval,
}
use cs3013_operating_systems.HostNames.Readback.{SetTo, gethostname-sethostname}

-- A buffer of the bytes "ab" and zeros.
abbrev buffer : ℕ → List ℕ
buffer n = take n (97 ∷ 98 ∷ replicate n 0)

length-buffer : (n : ℕ) → length (buffer n) ≡ n
length-buffer n =
    omega (arith, length-take {A = ℕ} n (97 ∷ 98 ∷ replicate n 0), length-replicate {A = ℕ} n 0)

copies_all : (n : ℕ) (tmp : List ℕ) → some (buffer n) ≡ some tmp → length tmp ≡ n
copies_all n tmp e = ap {A = List ℕ} length (same e) ∙ length-buffer n
  where
    same : {s t : List ℕ} → some s ≡ some t → t ≡ s
    same x = cc

abbrev administrator : Caller
administrator = record { capable = true; copy_from_user = λ n. some (buffer n); copies_out = true }

-- An array of seven bytes, for names of six.
abbrev two_names : Utsname
two_names = record { nodename = replicate 7 120; domainname = replicate 7 121 }

name_was_set : (sethostname 6 administrator (pos 4) two_names).0 ≡ pos 0
unfolding sethostname new_name
name_was_set = refl

gethostname-sethostname_example :
    SetTo 6 administrator two_names (pos 4) 6 (sethostname 6 administrator (pos 4) two_names)
gethostname-sethostname_example =
    gethostname-sethostname 6 administrator two_names (pos 4) 6 copies_all refl refl name_was_set

name_is_shown :
    gethostname 6 administrator (pos 6) ((sethostname 6 administrator (pos 4) two_names).1)
    ≡ (pos 0, some (97 ∷ 98 ∷ 0 ∷ []))
unfolding sethostname gethostname new_name fill strlen
name_is_shown = refl

too_long : (setdomainname 6 administrator (pos 7) two_names).0 ≡ einval
unfolding setdomainname new_name
too_long = refl
