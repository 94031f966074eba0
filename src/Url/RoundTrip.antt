-- ===== src/Url/RoundTrip.antt =====
-- A URL that is put together from its parts is read back as those parts.
use starweb.Base.{
  ℕ, suc, ◌-◌, ◌^◌, ◌<◌, ◌≡◌, refl, ◌∙◌, true, false, ◌||◌, ◌⊎◌, inl, inr, Option, none, some, [],
  ◌∷◌, ◌++◌, append_assoc, append-nil, arith, ◌==◌, length, take-append, drop-append,
  drop-append_suc, drop-append_add, Option-cases,
}
use starweb.Base.Bytes.{Bytes, codes, equal, is_empty, find, lower}
use starweb.Base.Bytes.Laws.{
  Lacks, Avoids-append, Avoids-find_if, find_if-Avoids, find-append, find_sub-append, equal_refl,
  Lacks-lower,
}
use starweb.Base.Decimal.{
  to_string, IsDigits-to_string, Lacks-IsDigits, NoDigit, stoi-append, to_string-ne-nil,
}
use starweb.Base.Int.{ℤ, pos}
use starweb.Base.Maybe.{◌>>=◌}
use starweb.Url.{
  moon, star, scheme_delim, default_port, after_bracket, split_bracket, split_plain,
  split_host_port, read_port, split_path, parse_rest, parse_url, format_host,
}

-- A host that a URL can hold.
pub record IsHost (h : Bytes) : Type 0 where
  pub ne_nil : ¬ (h ≡ [])
  pub no_slash : Lacks b'/' h
  pub no_close : Lacks b']' h
  pub no_open : Lacks b'[' h

-- ":port", or nothing where the port is left out.
abbrev pub port_suffix : Bytes → Bytes
port_suffix [] = []
port_suffix (c ∷ s) = b':' ∷ c ∷ s

-- The path behind the first slash, or no slash at all.
abbrev pub path_text : Option Bytes → Bytes
path_text none = []
path_text (some t) = b'/' ∷ t

abbrev pub path_or_root : Option Bytes → Bytes
path_or_root none = codes "/"
path_or_root (some t) = b'/' ∷ t

abbrev pub url_text : Bytes → Bytes → Bytes → Option Bytes → Bytes
url_text scheme host port path =
    scheme ++ (scheme_delim ++ (format_host host ++ (port_suffix port ++ path_text path)))

split_plain-suffix :
    (h port : Bytes) → Lacks b':' h → split_plain (h ++ port_suffix port) ≡ some (h, port)
unfolding split_plain
split_plain-suffix h [] l = rw (append-nil h) (rw (find_if-Avoids _ h l, split_plain))
split_plain-suffix h (c ∷ s) l = rw (
  find-append h b':' (c ∷ s) l,
  split_plain,
  drop-append_suc h b':' (c ∷ s),
  take-append h (b':' ∷ c ∷ s),
)

sub_one : (n : ℕ) → suc (suc n) - 1 ≡ suc n
sub_one n = omega arith

split_bracket-close :
    (c : ℕ) (s t : Bytes)
    → Lacks b']' (c ∷ s)
    → split_bracket (b'[' ∷ ((c ∷ s) ++ (b']' ∷ t))) ≡ after_bracket (c ∷ s) t
unfolding split_bracket
split_bracket-close c s t l =
    rw (find-append (b'[' ∷ c ∷ s) b']' t (refl, l), split_bracket)
      (rw (drop-append_suc (b'[' ∷ c ∷ s) b']' t)
        (ground (arith, take-append (c ∷ s) (b']' ∷ t), sub_one (length s))))

after_bracket-suffix : (h port : Bytes) → after_bracket h (port_suffix port) ≡ some (h, port)
unfolding after_bracket
after_bracket-suffix h [] = refl
after_bracket-suffix h (c ∷ s) = refl

-- The host and the port are told apart, with and without brackets.
split-format_host :
    (h port : Bytes)
    → IsHost h
    → split_host_port (format_host h ++ port_suffix port) ≡ some (h, port)
unfolding split_host_port format_host
split-format_host [] port v = absurd (v.ne_nil refl)
split-format_host (c ∷ s) port v = elim (Option-cases (find b':' (c ∷ s))) [
  | inl e ↦
      rw (e, format_host)
        (rw v.no_open.0 (split_plain-suffix (c ∷ s) port (Avoids-find_if _ (c ∷ s) e)))
  | inr (i, e) ↦
      rw (e, format_host)
        (rw (append_assoc s (b']' ∷ []) (port_suffix port)) (
          split_bracket-close c s (port_suffix port) v.no_close
          ∙ after_bracket-suffix (c ∷ s) port))
]

Lacks-format_host : (h : Bytes) → Lacks b'/' h → Lacks b'/' (format_host h)
unfolding format_host
Lacks-format_host h l = elim (Option-cases (find b':' h)) [
  | inl e ↦ rw (e, format_host) l
  | inr (i, e) ↦ rw (e, format_host) (refl, Avoids-append _ h (codes "]") l (refl, tt))
]

Lacks-port_suffix : (port : Bytes) → Lacks b'/' port → Lacks b'/' (port_suffix port)
Lacks-port_suffix [] l = tt
Lacks-port_suffix (c ∷ s) l = (refl, l)

split_path-path_text :
    (a : Bytes) (path : Option Bytes)
    → Lacks b'/' a
    → split_path (a ++ path_text path) ≡ (a, path_or_root path)
unfolding split_path
split_path-path_text a none l = rw (append-nil a) (rw (find_if-Avoids _ a l, split_path))
split_path-path_text a (some t) l =
    rw (find-append a b'/' t l, split_path, take-append a (b'/' ∷ t), drop-append a (b'/' ∷ t))

is_empty-ne-nil : (s : Bytes) → ¬ (s ≡ []) → is_empty s ≡ false
is_empty-ne-nil [] h = absurd (h refl)
is_empty-ne-nil (x ∷ s) h = refl

is_empty-append : (s t : Bytes) → ¬ (s ≡ []) → is_empty (s ++ t) ≡ false
is_empty-append [] t h = absurd (h refl)
is_empty-append (x ∷ s) t h = refl

is_empty-format_host : (h t : Bytes) → ¬ (h ≡ []) → is_empty (format_host h ++ t) ≡ false
is_empty-format_host [] t n = absurd (n refl)
is_empty-format_host (c ∷ s) t n = elim (Option-cases (find b':' (c ∷ s))) [
  | inl e ↦ unfold format_host in rw (e, format_host)
  | inr (i, e) ↦ unfold format_host in rw (e, format_host)
]

-- Everything behind the scheme, with the port text left to `read_port`.
parse_rest-parts :
    (scheme h port : Bytes) (path : Option Bytes)
    → IsHost h
    → Lacks b'/' port
    → parse_rest scheme (format_host h ++ (port_suffix port ++ path_text path)) ≡ (do
      p ← read_port port (default_port scheme)
      some (record { scheme = scheme; host = h; port = p; path = path_or_root path }))
unfolding parse_rest
parse_rest-parts scheme h port path v l =
    rw (is_empty-format_host h _ v.ne_nil, ← append_assoc)
      (rw
        (split_path-path_text _ path (
          Avoids-append _ (format_host h) _ (Lacks-format_host h v.no_slash)
            (Lacks-port_suffix port l)))
        (rw (split-format_host h port v, is_empty-ne-nil h v.ne_nil)))

abbrev pub IsScheme : Bytes → Type 0
IsScheme s = (s ≡ moon) ⊎ (s ≡ star)

scheme_test : (s : Bytes) → IsScheme s → (equal s moon || equal s star) ≡ true
scheme_test s (inl e) = rw (e, equal_refl moon)
scheme_test s (inr e) = rw e (unfold equal in refl)

IsScheme-Lacks : (text : Bytes) → IsScheme (lower text) → Lacks b':' text
IsScheme-Lacks text (inl e) = Lacks-lower b':' text refl (rw e (refl, (refl, (refl, (refl, tt)))))
IsScheme-Lacks text (inr e) = Lacks-lower b':' text refl (rw e (refl, (refl, (refl, (refl, tt)))))

-- The scheme is found in any case of letters and put into lower case.
pub parse_url-scheme :
    (text rest : Bytes)
    → IsScheme (lower text)
    → parse_url (text ++ (scheme_delim ++ rest)) ≡ parse_rest (lower text) rest
unfolding parse_url
parse_url-scheme text rest h =
    rw (find_sub-append text b':' (codes "//") rest (IsScheme-Lacks text h)) (
      rw (take-append text (scheme_delim ++ rest), drop-append_add text (scheme_delim ++ rest) 3)
        (rw (scheme_test (lower text) h)))

-- `parse_url` of a URL that is put together from a scheme in any case, a host, a port text and a
-- path gives the scheme in lower case, the same host, the port as `read_port` reads it, and the path.
pub parse_url-url_text :
    (text h port : Bytes) (path : Option Bytes)
    → IsScheme (lower text)
    → IsHost h
    → Lacks b'/' port
    → parse_url (url_text text h port path) ≡ (do
      p ← read_port port (default_port (lower text))
      some (record { scheme = lower text; host = h; port = p; path = path_or_root path }))
parse_url-url_text text h port path s v l =
    parse_url-scheme text (format_host h ++ (port_suffix port ++ path_text path)) s
    ∙ parse_rest-parts (lower text) h port path v l

read_port-to_string :
    (n : ℕ) (junk : Bytes) (default : ℤ)
    → n < 2 ^ 31
    → NoDigit junk
    → read_port (to_string n ++ junk) default ≡ some (pos n)
unfolding read_port
read_port-to_string n junk default l e =
    rw (is_empty-append (to_string n) junk (to_string-ne-nil n)) (stoi-append n junk l e)

-- A URL that states a port below 2^31, for a host with or without colons, in any case of scheme,
-- with or without a path, is parsed to exactly these parts; bytes other than digits and slashes
-- that stand behind the digits of the port are ignored.
pub parse_url_round_trip :
    (text h : Bytes) (n : ℕ) (junk : Bytes) (path : Option Bytes)
    → IsScheme (lower text)
    → IsHost h
    → n < 2 ^ 31
    → NoDigit junk
    → Lacks b'/' junk
    → parse_url (url_text text h (to_string n ++ junk) path)
      ≡ some (record { scheme = lower text; host = h; port = pos n; path = path_or_root path })
parse_url_round_trip text h n junk path s v l d e =
    let no_slash =
      Avoids-append (λ x. x == b'/') (to_string n) junk
        (Lacks-IsDigits b'/' (to_string n) refl (IsDigits-to_string n)) e in
    rw (parse_url-url_text text h (to_string n ++ junk) path s v no_slash)
      (rw (read_port-to_string n junk (default_port (lower text)) l d))
