-- ===== src/User/Ulib/Tests.antt =====
-- A number that is printed and read back.
use mits081_lab.Base.{◌≡◌, true, arith}
use mits081_lab.User.Printf.{printint}
use mits081_lab.User.Ulib.{atoi}
use mits081_lab.User.Ulib.Strings.{atoi-printint}

atoi-printint_example : atoi (printint 2047 10 true) ≡ 2047
atoi-printint_example = atoi-printint 2047 (omega arith)
