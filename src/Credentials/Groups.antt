-- ===== src/Credentials/Groups.antt =====
-- preproj2/sys.c: setregid, setgid, setresgid and setfsgid, in any sequence.
use cs3013_operating_systems.Prelude.{
  ℕ, ◌≡◌, refl, sym, ◌∙◌, subst, ◌⊎◌, inl, inr, List, [], ◌∷◌, false, arith,
}
use cs3013_operating_systems.Prelude.Int.{ℤ, negsuc}
use cs3013_operating_systems.Credentials.{
  Cred, Process, Kernel, setregid, setgid, setresgid, setfsgid,
}

pub data GidCall : Type 0 where
  regid : ℕ → ℕ → GidCall
  gid : ℕ → GidCall
  resgid : ℕ → ℕ → ℕ → GidCall
  fsgid : ℕ → GidCall

unfoldable pub gid_call : Kernel → GidCall → Process → ℤ × Process
gid_call k (regid r e) p = setregid k r e p
gid_call k (gid g) p = setgid k g p
gid_call k (resgid r e s) p = setresgid k r e s p
gid_call k (fsgid g) p = setfsgid k g p

-- A sequence of calls, whatever they return.
unfoldable pub gid_calls : Kernel → List GidCall → Process → Process
gid_calls k [] p = p
gid_calls k (c ∷ cs) p = gid_calls k cs (gid_call k c p).1

-- The real, effective and saved gid of `old` are the ids in its reach.
abbrev pub OneOf : ℕ → Cred → Type 0
OneOf id old = (id ≡ old.gid) ⊎ (id ≡ old.egid) ⊎ (id ≡ old.sgid)

pub record Confined (old new : Cred) : Type 0 where
  pub real : OneOf new.gid old
  pub effective : OneOf new.egid old
  pub saved : OneOf new.sgid old
  pub file_system : (new.fsgid ≡ old.fsgid) ⊎ OneOf new.fsgid old

module _ (k : Kernel) where
  setregid-Confined :
      (r e : ℕ) (p : Process) → k.cap_setgid ≡ false → Confined p.cred (setregid k r e p).1.cred
  unfolding setregid
  setregid-Confined r e p h = record {
    real = ground arith;
    effective = ground arith;
    saved = ground arith;
    file_system = ground arith;
  }

  setgid-Confined :
      (g : ℕ) (p : Process) → k.cap_setgid ≡ false → Confined p.cred (setgid k g p).1.cred
  unfolding setgid
  setgid-Confined g p h = record {
    real = ground arith;
    effective = ground arith;
    saved = ground arith;
    file_system = ground arith;
  }

  setresgid-Confined :
      (r e s : ℕ) (p : Process)
      → k.cap_setgid ≡ false
      → Confined p.cred (setresgid k r e s p).1.cred
  unfolding setresgid
  setresgid-Confined r e s p h = record {
    real = ground arith;
    effective = ground arith;
    saved = ground arith;
    file_system = ground arith;
  }

  setfsgid-Confined :
      (g : ℕ) (p : Process) → k.cap_setgid ≡ false → Confined p.cred (setfsgid k g p).1.cred
  unfolding setfsgid
  setfsgid-Confined g p h = record {
    real = ground arith;
    effective = ground arith;
    saved = ground arith;
    file_system = ground arith;
  }

  gid_call-Confined :
      (c : GidCall) (p : Process) → k.cap_setgid ≡ false → Confined p.cred (gid_call k c p).1.cred
  unfolding gid_call
  gid_call-Confined (regid r e) p h = setregid-Confined r e p h
  gid_call-Confined (gid g) p h = setgid-Confined g p h
  gid_call-Confined (resgid r e s) p h = setresgid-Confined r e s p h
  gid_call-Confined (fsgid g) p h = setfsgid-Confined g p h

  OneOf-trans : (a b : Cred) (id : ℕ) → Confined a b → OneOf id b → OneOf id a
  OneOf-trans a b id f o = ground (arith, f.real, f.effective, f.saved)

  Confined-trans : (a b c : Cred) → Confined a b → Confined b c → Confined a c
  Confined-trans a b c f g = record {
    real = OneOf-trans a b c.gid f g.real;
    effective = OneOf-trans a b c.egid f g.effective;
    saved = OneOf-trans a b c.sgid f g.saved;
    file_system = elim g.file_system [
      | inl e ↦ elim f.file_system [
        | inl e' ↦ inl (e ∙ e')
        | inr o ↦ inr (subst (λ id. OneOf id a) (sym e) o)
      ]
      | inr o ↦ inr (OneOf-trans a b c.fsgid f o)
    ];
  }

  -- A process without CAP_SETGID, whatever group calls it makes in whatever order and whether they
  -- succeed, keeps its real, effective and saved gid among those three that it began with, and its
  -- file system's gid among these and the one that it began with.
  pub gid_calls-Confined :
      (cs : List GidCall) (p : Process)
      → k.cap_setgid ≡ false
      → Confined p.cred (gid_calls k cs p).cred
  unfolding gid_calls
  gid_calls-Confined [] p h = record {
    real = inl refl;
    effective = inr (inl refl);
    saved = inr (inr refl);
    file_system = inl refl;
  }
  gid_calls-Confined (c ∷ cs) p h =
      Confined-trans p.cred (gid_call k c p).1.cred (gid_calls k (c ∷ cs) p).cred
        (gid_call-Confined c p h) (gid_calls-Confined cs (gid_call k c p).1 h)

  -- A group call that returns an error leaves the process as it was.
  pub gid_call-failure :
      (c : GidCall) (p : Process) (n : ℕ) → (gid_call k c p).0 ≡ negsuc n → (gid_call k c p).1 ≡ p
  unfolding gid_call setregid setgid setresgid setfsgid
  gid_call-failure (regid r e) p n h = ground arith
  gid_call-failure (gid g) p n h = ground arith
  gid_call-failure (resgid r e s) p n h = ground arith
  gid_call-failure (fsgid g) p n h = ground arith
