-- ===== src/Cookies/Disk.antt =====
-- src/browser/cookies.cpp: the file of the cookies, `load_locked` and `save_locked`. What `std::sscanf` makes
-- of a number that does not fit is a parameter, and so are the clock and the text of the file.
pub mod Back
use starweb.Base.{
  ℕ, zero, suc, ◌+◌, Bool, true, false, not, ◌&&◌, ◌||◌, Option, none, some, List, [], ◌∷◌, ◌++◌,
  ◌==◌, if◌then◌else◌, leb, ltb, length, take, drop,
}
use starweb.Base.Bytes.{Bytes, codes, equal, find}
use starweb.Base.Decimal.{to_string}
use starweb.Base.Decimal.Scan.{Beyond, scan_llu, scan_lld, scan_d}
use starweb.Base.Dict.{Dict, lookup, insert}
use starweb.Base.Maybe.{◌>>=◌}
use starweb.Base.Int.{ℤ, pos, negsuc}
use starweb.Cookies.{
  Cookie, Jar, max_name_bytes, max_value_bytes, max_cookies_per_origin, is_zero, expired,
  jar_or_new,
}
use starweb.Msg.{print_int}

-- The five numbers of a record's line: the lengths of origin, name and value, the end and the mark.
pub record Header : Type 0 where
  pub olen : ℕ
  pub nlen : ℕ
  pub vlen : ℕ
  pub expires : ℤ
  pub only : ℤ

abbrev pub mark : Bool → ℤ
mark true = pos 1
mark false = pos 0

abbrev pub header_of : Bytes → Cookie → Header
header_of origin c = record {
  olen = length origin;
  nlen = length c.name;
  vlen = length c.value;
  expires = c.expires_at;
  only = mark c.stwp_only;
}

abbrev pub print_header : Header → Bytes
print_header h =
    to_string h.olen
    ++ (codes " "
        ++ (to_string h.nlen
            ++ (codes " "
                ++ (to_string h.vlen
                    ++ (codes " " ++ (print_int h.expires ++ (codes " " ++ print_int h.only)))))))

-- A cookie with its origin.
abbrev pub Saved : Type 0
Saved = Bytes × Cookie

unfoldable pub write_entry : Saved → Bytes → Bytes
write_entry (origin, c) rest =
    print_header (header_of origin c) ++ (10 ∷ (origin ++ (c.name ++ (c.value ++ (10 ∷ rest)))))

unfoldable pub write_entries : List Saved → Bytes
write_entries [] = []
write_entries (e ∷ es) = write_entry e (write_entries es)

-- The cookies that outlive the session and have not ended.
unfoldable pub lasting : ℤ → Bytes → Jar → List Saved
lasting now origin [] = []
lasting now origin (c ∷ jar) =
    let rest = lasting now origin jar in
    if is_zero c.expires_at || expired now c then rest else (origin, c) ∷ rest

unfoldable pub all_lasting : ℤ → Dict Jar → List Saved
all_lasting now [] = []
all_lasting now ((origin, jar) ∷ jars) = lasting now origin jar ++ all_lasting now jars

abbrev pub magic : Bytes
magic = codes "STARCOOKIES1"

-- The text of the file.
unfoldable pub save_locked : ℤ → Dict Jar → Bytes
save_locked now jars = magic ++ (10 ∷ write_entries (all_lasting now jars))

-- A line without its end, and what follows it; `none` at the end of the file.
unfoldable pub getline : Bytes → Option (Bytes × Bytes)
getline [] = none
getline (c ∷ s) = elim (find 10 (c ∷ s)) [
  | none ↦ some (c ∷ s, [])
  | some i ↦ some (take i (c ∷ s), drop (i + 1) (c ∷ s))
]

abbrev not_zero : ℤ → Bool
not_zero n = not (is_zero n)

-- The texts of a record, when they are there, and what follows the byte behind them.
unfoldable pub read_entry : Header → Bytes → Option (Saved × Bytes)
read_entry h text =
    let after_origin = drop h.olen text in
    let after_name = drop h.nlen after_origin in
    if leb h.nlen max_name_bytes
      && leb h.vlen max_value_bytes
      && leb h.olen 1024
      && leb (h.olen + (h.nlen + h.vlen)) (length text)
    then some (
      (
        take h.olen text,
        record {
          name = take h.nlen after_origin;
          value = take h.vlen after_name;
          expires_at = h.expires;
          stwp_only = not_zero h.only;
        },
      ),
      drop 1 (drop h.vlen after_name),
    )
    else none

-- The cookies go to their jars, but for those that have ended and those that find no room.
unfoldable pub put_entries : ℤ → List Saved → Dict Jar → Dict Jar
put_entries now [] jars = jars
put_entries now ((origin, c) ∷ es) jars =
    let jar = jar_or_new (lookup origin jars) in
    if expired now c
    then put_entries now es jars
    else if leb max_cookies_per_origin (length jar)
    then put_entries now es (insert origin jar jars)
    else put_entries now es (insert origin (jar ++ c ∷ []) jars)

-- `sscanf(line, "%llu %llu %llu %lld %d", &olen, &nlen, &vlen, &expires, &stwp_only)`; `none` unless it reads five
-- numbers. What stands behind them is not looked at.
unfoldable pub scan_header : Beyond → Bytes → Option Header
scan_header beyond line = do
  (olen, rest) ← scan_llu beyond line
  (nlen, rest) ← scan_llu beyond rest
  (vlen, rest) ← scan_llu beyond rest
  (expires, rest) ← scan_lld beyond rest
  (only, rest) ← scan_d beyond rest
  some (record { olen = olen; nlen = nlen; vlen = vlen; expires = expires; only = only })

module _ (beyond : Beyond) where
  -- A line takes a byte at least, so one more round than there are bytes is enough.
  unfoldable pub read_entries : ℕ → Bytes → List Saved
  read_entries zero text = []
  read_entries (suc fuel) text = elim (getline text) [
    | none ↦ []
    | some lr ↦ elim (scan_header beyond lr.0) [
      | none ↦ []
      | some h ↦ elim (read_entry h lr.1) [ none ↦ [] | some er ↦ er.0 ∷ read_entries fuel er.1 ]
    ]
  ]

  unfoldable pub load_locked : ℤ → Bytes → Dict Jar → Dict Jar
  load_locked now text jars = elim (getline text) [
    | none ↦ jars
    | some lr ↦
        if equal lr.0 magic
        then put_entries now (read_entries (suc (length lr.1)) lr.1) jars
        else jars
  ]
