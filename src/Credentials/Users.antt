-- ===== src/Credentials/Users.antt =====
-- preproj2/sys.c: setreuid, setuid, setresuid and setfsuid, in any sequence.
use cs3013_operating_systems.Prelude.{
  ℕ, ◌≡◌, ◌≢◌, refl, sym, ◌∙◌, subst, ◌⊎◌, inl, inr, List, [], ◌∷◌, false, arith,
}
use cs3013_operating_systems.Prelude.Int.{ℤ, pos, negsuc}
use cs3013_operating_systems.Credentials.{
  Cred, Process, Kernel, unset, setreuid, setuid, setresuid, setfsuid,
}

pub data UidCall : Type 0 where
  reuid : ℕ → ℕ → UidCall
  uid : ℕ → UidCall
  resuid : ℕ → ℕ → ℕ → UidCall
  fsuid : ℕ → UidCall

unfoldable pub uid_call : Kernel → UidCall → Process → ℤ × Process
uid_call k (reuid r e) p = setreuid k r e p
uid_call k (uid g) p = setuid k g p
uid_call k (resuid r e s) p = setresuid k r e s p
uid_call k (fsuid g) p = setfsuid k g p

-- A call, and what the kernel answers to it: a process may gain or lose CAP_SETUID in between.
pub record AnsweredCall : Type 0 where
  pub kernel : Kernel
  pub call : UidCall

-- A sequence of calls, whatever they return.
unfoldable pub uid_calls : List AnsweredCall → Process → Process
uid_calls [] p = p
uid_calls (c ∷ cs) p = uid_calls cs (uid_call c.kernel c.call p).1

-- The process has CAP_SETUID at none of the calls.
abbrev pub Unable : List AnsweredCall → Type 0
Unable [] = Unit
Unable (c ∷ cs) = (c.kernel.cap_setuid ≡ false) × Unable cs

-- The real, effective and saved uid of `old` are the ids in its reach.
abbrev pub OneUid : ℕ → Cred → Type 0
OneUid id old = (id ≡ old.uid) ⊎ (id ≡ old.euid) ⊎ (id ≡ old.suid)

pub record UidsConfined (old new : Cred) : Type 0 where
  pub real : OneUid new.uid old
  pub effective : OneUid new.euid old
  pub saved : OneUid new.suid old
  pub file_system : (new.fsuid ≡ old.fsuid) ⊎ OneUid new.fsuid old

module _ (k : Kernel) where
  setreuid-UidsConfined :
      (r e : ℕ) (p : Process) → k.cap_setuid ≡ false → UidsConfined p.cred (setreuid k r e p).1.cred
  unfolding setreuid
  setreuid-UidsConfined r e p h = record {
    real = ground arith;
    effective = ground arith;
    saved = ground arith;
    file_system = ground arith;
  }

  setuid-UidsConfined :
      (g : ℕ) (p : Process) → k.cap_setuid ≡ false → UidsConfined p.cred (setuid k g p).1.cred
  unfolding setuid
  setuid-UidsConfined g p h = record {
    real = ground arith;
    effective = ground arith;
    saved = ground arith;
    file_system = ground arith;
  }

  setresuid-UidsConfined :
      (r e s : ℕ) (p : Process)
      → k.cap_setuid ≡ false
      → UidsConfined p.cred (setresuid k r e s p).1.cred
  unfolding setresuid
  setresuid-UidsConfined r e s p h = record {
    real = ground arith;
    effective = ground arith;
    saved = ground arith;
    file_system = ground arith;
  }

  setfsuid-UidsConfined :
      (g : ℕ) (p : Process) → k.cap_setuid ≡ false → UidsConfined p.cred (setfsuid k g p).1.cred
  unfolding setfsuid
  setfsuid-UidsConfined g p h = record {
    real = ground arith;
    effective = ground arith;
    saved = ground arith;
    file_system = ground arith;
  }

  uid_call-UidsConfined :
      (c : UidCall) (p : Process)
      → k.cap_setuid ≡ false
      → UidsConfined p.cred (uid_call k c p).1.cred
  unfolding uid_call
  uid_call-UidsConfined (reuid r e) p h = setreuid-UidsConfined r e p h
  uid_call-UidsConfined (uid g) p h = setuid-UidsConfined g p h
  uid_call-UidsConfined (resuid r e s) p h = setresuid-UidsConfined r e s p h
  uid_call-UidsConfined (fsuid g) p h = setfsuid-UidsConfined g p h

  -- A user call that returns an error leaves the credentials as they were.
  pub uid_call-failure :
      (c : UidCall) (p : Process) (n : ℕ)
      → (uid_call k c p).0 ≡ negsuc n
      → (uid_call k c p).1.cred ≡ p.cred
  unfolding uid_call setreuid setuid setresuid setfsuid
  uid_call-failure (reuid r e) p n h = ground arith
  uid_call-failure (uid u) p n h = ground arith
  uid_call-failure (resuid r e s) p n h = ground arith
  uid_call-failure (fsuid u) p n h = ground arith

OneUid-trans : (a b : Cred) (id : ℕ) → UidsConfined a b → OneUid id b → OneUid id a
OneUid-trans a b id f o = ground (arith, f.real, f.effective, f.saved)

UidsConfined-trans : (a b c : Cred) → UidsConfined a b → UidsConfined b c → UidsConfined a c
UidsConfined-trans a b c f g = record {
  real = OneUid-trans a b c.uid f g.real;
  effective = OneUid-trans a b c.euid f g.effective;
  saved = OneUid-trans a b c.suid f g.saved;
  file_system = elim g.file_system [
    | inl e ↦ elim f.file_system [
      | inl e' ↦ inl (e ∙ e')
      | inr o ↦ inr (subst (λ id. OneUid id a) (sym e) o)
    ]
    | inr o ↦ inr (OneUid-trans a b c.fsuid f o)
  ];
}

-- A process that has CAP_SETUID at none of its calls, whatever user calls it makes in whatever order
-- and whether they succeed, keeps its real, effective and saved uid among those three that it began
-- with, and its file system's uid among these and the one that it began with. What the kernel
-- answers may differ from call to call.
pub uid_calls-UidsConfined :
    (cs : List AnsweredCall) (p : Process) → Unable cs → UidsConfined p.cred (uid_calls cs p).cred
unfolding uid_calls
uid_calls-UidsConfined [] p h = record {
  real = inl refl;
  effective = inr (inl refl);
  saved = inr (inr refl);
  file_system = inl refl;
}
uid_calls-UidsConfined (c ∷ cs) p (h, hs) =
    let q = (uid_call c.kernel c.call p).1 in
    UidsConfined-trans p.cred q.cred (uid_calls (c ∷ cs) p).cred
      (uid_call-UidsConfined c.kernel c.call p h) (uid_calls-UidsConfined cs q hs)

-- All four uids are `u`.
pub record Only (u : ℕ) (c : Cred) : Type 0 where
  pub real_is : c.uid ≡ u
  pub effective_is : c.euid ≡ u
  pub saved_is : c.suid ≡ u
  pub file_system_is : c.fsuid ≡ u

setreuid-Only :
    (k : Kernel) (u : ℕ) (p : Process)
    → u ≢ unset
    → (setreuid k u u p).0 ≡ pos 0
    → Only u (setreuid k u u p).1.cred
unfolding setreuid
setreuid-Only k u p h e = record {
  real_is = ground arith;
  effective_is = ground arith;
  saved_is = ground arith;
  file_system_is = ground arith;
}

Only-UidsConfined : (u : ℕ) (a b : Cred) → Only u a → UidsConfined a b → Only u b
Only-UidsConfined u a b o f = record {
  real_is = ground (arith, o.real_is, o.effective_is, o.saved_is, f.real);
  effective_is = ground (arith, o.real_is, o.effective_is, o.saved_is, f.effective);
  saved_is = ground (arith, o.real_is, o.effective_is, o.saved_is, f.saved);
  file_system_is =
      ground (arith, o.real_is, o.effective_is, o.saved_is, o.file_system_is, f.file_system);
}

-- setreuid(u, u), where it succeeds, drops all other users for good: whatever user calls follow, so
-- long as the process lacks CAP_SETUID at each of them, all its uids stay `u`.
pub setreuid-drops :
    (k : Kernel) (u : ℕ) (p : Process) (cs : List AnsweredCall)
    → u ≢ unset
    → (setreuid k u u p).0 ≡ pos 0
    → Unable cs
    → Only u (uid_calls cs (setreuid k u u p).1).cred
setreuid-drops k u p cs h e f =
    Only-UidsConfined u (setreuid k u u p).1.cred (uid_calls cs (setreuid k u u p).1).cred
      (setreuid-Only k u p h e) (uid_calls-UidsConfined cs (setreuid k u u p).1 f)
