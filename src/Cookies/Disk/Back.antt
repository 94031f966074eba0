-- ===== src/Cookies/Disk/Back.antt =====
-- src/browser/cookies.cpp: the file that is written is read back.
use starweb.Base.{◌++◌, ◌^◌, ◌≤◌, ◌<◌, ◌++◌, length}
use starweb.Base.Bytes.{Bytes}
use starweb.Base.Dict.{Dict}
use starweb.Base.Int.{ℤ, pos, negsuc}
use starweb.Cookies.{max_name_bytes, max_value_bytes}
use starweb.Cookies.Disk.{Saved}

-- A 64-bit number.
abbrev pub IsInt64 : ℤ → Type 0
IsInt64 (pos n) = n < 2 ^ 63
IsInt64 (negsuc n) = n < 2 ^ 63

-- An entry within the limits that reading checks, whose end is a 64-bit number.
abbrev pub Fits : Saved → Type 0
Fits e =
    (length e.0 ≤ 1024)
    × (length e.1.name ≤ max_name_bytes)
    × (length e.1.value ≤ max_value_bytes)
    × IsInt64 e.1.expires_at
