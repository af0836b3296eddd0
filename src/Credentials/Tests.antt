-- ===== src/Credentials/Tests.antt =====
-- preproj2/sys.c: small runs of the calls, and the theorems at them.
use cs3013_operating_systems.Prelude.{◌≡◌, refl, List, [], ◌∷◌, false, true, some, arith}
use cs3013_operating_systems.Prelude.Int.{pos, negsuc}
use cs3013_operating_systems.Credentials.{Process, Kernel, setreuid, setgid, setuid}
use cs3013_operating_systems.Credentials.Groups.{
  GidCall, regid, gid, resgid, fsgid, gid_call, gid_calls, Confined, gid_calls-Confined,
}
use cs3013_operating_systems.Credentials.Users.{
  UidCall, AnsweredCall, reuid, uid, resuid, fsuid, uid_call, uid_calls, UidsConfined, Only,
  uid_calls-UidsConfined, setreuid-drops,
}

abbrev plain : Kernel
plain = record {
  prepare_creds = true;
  cap_setgid = false;
  cap_setuid = false;
  alloc_uid = λ u. some u;
  at_limit = λ u. false;
  task_fix_setuid = λ new old flag. pos 0;
}

-- A program that belongs to user and group 0 and was started by user and group 100.
abbrev set_id_program : Process
set_id_program = record {
  cred = record {
    uid = 100;
    euid = 0;
    suid = 0;
    fsuid = 0;
    gid = 100;
    egid = 0;
    sgid = 0;
    fsgid = 0;
    user = 100;
  };
  nproc_exceeded = false;
}

abbrev some_gid_calls : List GidCall
some_gid_calls = regid 100 100 ∷ gid 5 ∷ resgid 0 0 0 ∷ fsgid 100 ∷ []

-- The second call finds no memory for the credentials.
abbrev asked : UidCall → AnsweredCall
asked c = record { kernel = plain; call = c }

abbrev some_uid_calls : List AnsweredCall
some_uid_calls =
    asked (reuid 0 0)
    ∷ record { kernel = record plain { prepare_creds = false }; call = uid 5 }
    ∷ asked (resuid 0 0 0)
    ∷ asked (fsuid 0)
    ∷ []

gid_calls-Confined_example :
    Confined set_id_program.cred (gid_calls plain some_gid_calls set_id_program).cred
gid_calls-Confined_example = gid_calls-Confined plain some_gid_calls set_id_program refl

uid_calls-UidsConfined_example :
    UidsConfined set_id_program.cred (uid_calls some_uid_calls set_id_program).cred
uid_calls-UidsConfined_example =
    uid_calls-UidsConfined some_uid_calls set_id_program (refl, (refl, (refl, (refl, tt))))

gid_denied : (gid_call plain (gid 5) set_id_program).0 ≡ negsuc 0
unfolding gid_call setgid
gid_denied = refl

uid_denied : (uid_call plain (uid 5) set_id_program).0 ≡ negsuc 0
unfolding uid_call setuid
uid_denied = refl

dropped : (setreuid plain 100 100 set_id_program).0 ≡ pos 0
unfolding setreuid
dropped = refl

setreuid-drops_example :
    Only 100 (uid_calls some_uid_calls (setreuid plain 100 100 set_id_program).1).cred
setreuid-drops_example =
    setreuid-drops plain 100 set_id_program some_uid_calls (λ e. omega arith) dropped
      (refl, (refl, (refl, (refl, tt))))
