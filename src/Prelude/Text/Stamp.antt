-- ===== src/Prelude/Text/Stamp.antt =====
-- `Format(time.RFC3339Nano)` of a time
use Prim.Native.Nat.{ℕ, zero, suc, ◌+◌, ◌-◌, ◌*◌, ◌/◌, ◌%◌}
use Prim.Native.Char.{char}
use Prim.Native.String.{String, ◌∷◌, ◌++◌ as ◌<>◌}
use mathlib.Core.Path.{◌≡◌, refl}
use jolt.Prelude.Tests.{ltb, eqb, if◌then◌else◌}
use jolt.Prelude.Text.Case.{char_or}

-- the last digits of a number, as many as asked for
digits : ℕ → ℕ → String → String
digits zero n acc = acc
digits (suc k) n acc = digits k (n / 10) (char_or (48 + n % 10) (char 48 tt) ∷ acc)

-- a fraction of a second, without the zeros at its end
fraction : ℕ → ℕ → String
unfolding digits
fraction zero n = ""
fraction (suc k) n =
    let shorter = fraction k (n / 10) in if eqb (n % 10) 0 then shorter else digits (suc k) n ""

-- the date that lies a number of days behind 0000-03-01, whose years begin in March
date_text : ℕ → String
unfolding digits
date_text z =
    let era = z / 146097 in
    let doe = z % 146097 in
    let yoe = (doe - doe / 1460 + doe / 36524 - doe / 146096) / 365 in
    let doy = doe - (365 * yoe + yoe / 4 - yoe / 100) in
    let mp = (5 * doy + 2) / 153 in
    let day = doy - (153 * mp + 2) / 5 + 1 in
    let month = if ltb mp 10 then mp + 3 else mp - 9 in
    let year = yoe + era * 400 + (if ltb mp 10 then 0 else 1) in
    digits 4 year "" <> "-" <> digits 2 month "" <> "-" <> digits 2 day ""

-- `Format(time.RFC3339Nano)` of a time in nanoseconds behind the Unix epoch, in UTC
unfoldable pub stamp : ℕ → String
unfolding digits fraction date_text char_or
stamp t =
    let s = t / 1000000000 in
    let f = fraction 9 (t % 1000000000) in
    date_text (s / 86400 + 719468)
    <> "T"
    <> digits 2 (s / 3600 % 24) ""
    <> ":"
    <> digits 2 (s / 60 % 60) ""
    <> ":"
    <> digits 2 (s % 60) ""
    <> (if eqb (t % 1000000000) 0 then "" else "." <> f)
    <> "Z"

stamp_test : stamp 951782400500000000 ≡ "2000-02-29T00:00:00.5Z"
unfolding stamp
stamp_test = refl
