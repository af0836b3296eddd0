-- ===== src/HostNames/Readback.antt =====
-- preproj2/sys.c: a name that is read after it was set.
use cs3013_operating_systems.Prelude.{
  ℕ, ◌+◌, ◌-◌, ◌≤◌, ◌<◌, ◌≡◌, refl, sym, ◌∙◌, ◌≢◌, true, false, List, [], ◌∷◌, ◌++◌, Option, none,
  some, ◌==◌, if◌then◌else◌, length, length-append, length-replicate, take, replicate, arith, ap,
  subst, zero, suc,
}
use cs3013_operating_systems.Prelude.Text.{c_str}
use cs3013_operating_systems.Prelude.Int.{ℤ, pos, pos_part, ltb_ℤ}
use cs3013_operating_systems.HostNames.{
  Utsname, Caller, fill, strlen, refused, asked, new_name, sethostname, gethostname, efault, einval,
}

-- copy_from_user gives as many bytes as it is asked for.
abbrev pub CopiesAll : Caller → Type 0
CopiesAll c = (n : ℕ) (tmp : List ℕ) → c.copy_from_user n ≡ some tmp → length tmp ≡ n

length-fill :
    (tmp array : List ℕ) → length tmp ≤ length array → length (fill tmp array) ≡ length array
unfolding fill
length-fill tmp array q = omega (
  arith,
  length-append tmp (replicate (length array - length tmp) 0),
  length-replicate {A = ℕ} (length array - length tmp) 0,
)

-- In an array with a zero behind the bytes.
strlen-append : (tmp rest : List ℕ) → strlen (tmp ++ 0 ∷ rest) ≡ length (c_str tmp)
unfolding strlen c_str
strlen-append [] rest = refl
strlen-append (c ∷ tmp) rest = ground (arith, strlen-append tmp rest)

zero_of : (c : ℕ) → (c == 0) ≡ true → c ≡ 0
zero_of c e = ground (arith, e)

take-c_str :
    (tmp rest : List ℕ) → take (suc (length (c_str tmp))) (tmp ++ 0 ∷ rest) ≡ c_str tmp ++ 0 ∷ []
unfolding c_str
take-c_str [] rest = refl
take-c_str (c ∷ tmp) rest =
    (elim (c == 0)
        as (λ b.
          let name = if b then [] else c ∷ c_str tmp in
          (c == 0) ≡ b → take (suc (length name)) (c ∷ (tmp ++ 0 ∷ rest)) ≡ name ++ 0 ∷ []) [
            | true ↦ λ e. ap {A = ℕ} (λ x. x ∷ []) (zero_of c e)
            | false ↦ λ e. ap {A = List ℕ} (λ s. c ∷ s) (take-c_str tmp rest)
          ])
      refl

-- The first bytes of a longer array.
take_fewer : {A : Type 0} (n k : ℕ) (s : List A) → n ≤ k → take n (take k s) ≡ take n s
take_fewer zero k s q = refl
take_fewer (suc n) zero s q = absurd (omega arith)
take_fewer (suc n) (suc k) [] q = refl
take_fewer {A} (suc n) (suc k) (x ∷ s) q =
    ap {A = List A} (λ r. x ∷ r) (take_fewer n k s (omega arith))

take_all : {A : Type 0} (n : ℕ) (s : List A) → length s ≤ n → take n s ≡ s
take_all zero [] q = refl
take_all zero (x ∷ s) q = absurd (omega arith)
take_all (suc n) [] q = refl
take_all {A} (suc n) (x ∷ s) q = ap {A = List A} (λ r. x ∷ r) (take_all n s (omega arith))

-- As many bytes as the buffer has room for, up to `n` of them.
take_some :
    (m n : ℕ) (array name : List ℕ)
    → take n array ≡ name
    → length name ≡ n
    → take (if ltb_ℤ (pos m) (pos n) then m else n) array ≡ take m name
take_some m n array name e size =
    (elim (ltb_ℤ (pos m) (pos n))
        as (λ b. ltb_ℤ (pos m) (pos n) ≡ b → take (if b then m else n) array ≡ take m name) [
          | true ↦ λ x.
              sym (take_fewer m n array (ground (arith, x))) ∙ ap {A = List ℕ} (λ s. take m s) e
          | false ↦ λ x. e ∙ sym (take_all m name (ground (arith, x, size)))
        ])
      refl

-- A name that may be set leaves a zero behind it.
fill-zero :
    (tmp array : List ℕ)
    → length tmp < length array
    → fill tmp array ≡ tmp ++ 0 ∷ replicate (length array - length tmp - 1) 0
unfolding fill
fill-zero tmp array q =
    ap {A = ℕ} (λ n. tmp ++ replicate n 0) (next_of (length array - length tmp) (omega arith))
  where
    next_of : (n : ℕ) → 0 < n → n ≡ suc (n - 1)
    next_of n q = omega arith

shown_name :
    (m : ℕ) (tmp array : List ℕ)
    → length tmp < length array
    → let i = 1 + strlen (fill tmp array) in
      take (if ltb_ℤ (pos m) (pos i) then m else i) (fill tmp array) ≡ take m (c_str tmp ++ 0 ∷ [])
shown_name m tmp array q =
    let rest = replicate (length array - length tmp - 1) 0 in
    subst
      (λ s.
        take (if ltb_ℤ (pos m) (pos (1 + strlen s)) then m else 1 + strlen s) s
        ≡ take m (c_str tmp ++ 0 ∷ []))
      (sym (fill-zero tmp array q))
      (take_some m (1 + strlen (tmp ++ 0 ∷ rest)) (tmp ++ 0 ∷ rest) (c_str tmp ++ 0 ∷ [])
        (ap {A = ℕ} (λ n. take n (tmp ++ 0 ∷ rest)) (one_more (strlen-append tmp rest))
          ∙ take-c_str tmp rest)
        (omega (arith, length-append (c_str tmp) (0 ∷ []), strlen-append tmp rest)))
  where
    one_more : {a b : ℕ} → a ≡ b → 1 + a ≡ suc b
    one_more e = omega (arith, e)

module _ (max_len : ℕ) (c : Caller) (u : Utsname) where
  gethostname-fill :
      (m : ℕ) (tmp : List ℕ)
      → c.copies_out ≡ true
      → length tmp < length u.nodename
      → gethostname max_len c (pos m) (record u { nodename = fill tmp u.nodename })
        ≡ (pos 0, some (take m (c_str tmp ++ 0 ∷ [])))
  unfolding gethostname
  gethostname-fill m tmp out q =
      let x = fill tmp u.nodename in
      let i = 1 + strlen x in
      let bytes = take (if ltb_ℤ (pos m) (pos i) then m else i) x in
      subst
        (λ b.
          (if◌then◌else◌ {A = ℤ × Option (List ℕ)} b (einval, none)
            (if c.copies_out then (pos 0, some bytes) else (efault, none)))
          ≡ (pos 0, some (take m (c_str tmp ++ 0 ∷ []))))
        (not_negative m)
        (subst
          (λ b.
            (if◌then◌else◌ {A = ℤ × Option (List ℕ)} b (pos 0, some bytes) (efault, none))
            ≡ (pos 0, some (take m (c_str tmp ++ 0 ∷ []))))
          (sym out) (ap {A = List ℕ} (λ s. (pos 0, some s)) (shown_name m tmp u.nodename q)))
    where
      not_negative : (m : ℕ) → false ≡ ltb_ℤ (pos m) (pos 0)
      not_negative m = ground arith

  -- What a call left that set a name.
  abbrev pub SetTo : ℤ → ℕ → ℤ × Utsname → Type 0
  SetTo len m r =
      (tmp : List ℕ) × (c.copy_from_user (pos_part len) ≡ some tmp)
      × (length r.1.nodename ≡ length u.nodename)
      × (gethostname max_len c (pos m) r.1 ≡ (pos 0, some (take m (c_str tmp ++ 0 ∷ []))))

  new_name-asked :
      (len : ℤ) (tmp : List ℕ)
      → new_name max_len c len ≡ asked tmp
      → (c.copy_from_user (pos_part len) ≡ some tmp) × (pos_part len ≤ max_len)
  unfolding new_name
  new_name-asked len tmp e = (ground (arith, e), ground (arith, e))

  new_name-refused : (len : ℤ) (error : ℤ) → new_name max_len c len ≡ refused error → error ≢ pos 0
  unfolding new_name
  new_name-refused len error e z = ground (arith, e, z)

  -- After a sethostname that returned 0, the array is as long as before, and gethostname into a
  -- buffer of m bytes returns 0 and gives the first m bytes of the name and its zero. The name ends
  -- at its first zero; the array is taken to have a byte more than the longest name, and
  -- the copy from the caller to give what it is asked for, and that to the caller to succeed.
  pub gethostname-sethostname :
      (len : ℤ) (m : ℕ)
      → CopiesAll c
      → c.copies_out ≡ true
      → length u.nodename ≡ max_len + 1
      → (sethostname max_len c len u).0 ≡ pos 0
      → SetTo len m (sethostname max_len c len u)
  unfolding sethostname
  gethostname-sethostname len m all out size e =
      (elim (new_name max_len c len)
          as (λ x.
            let r = elim x as (λ y. ℤ × Utsname) [
              | refused error ↦ (error, u)
              | asked tmp ↦ (pos 0, record u { nodename = fill tmp u.nodename })
            ] in
            new_name max_len c len ≡ x → r.0 ≡ pos 0 → SetTo len m r) [
              | refused error ↦ λ x y. absurd (new_name-refused len error x y)
              | asked tmp ↦ λ x y.
                  let (copied, fits) = new_name-asked len tmp x in
                  let short = all (pos_part len) tmp copied in
                  (
                    tmp,
                    copied,
                    length-fill tmp u.nodename (omega (arith, short, fits, size)),
                    gethostname-fill m tmp out (omega (arith, short, fits, size)),
                  )
            ])
        refl e
