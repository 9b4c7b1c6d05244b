-- ===== src/Uri/RoundTrip.antt =====
-- Parsing what was built.
use esr.Base.{
  inl, inr, ◌⊎◌, subst, ℕ, ◌≤◌, ◌≡◌, ◌≢◌, refl, Bool, true, false, Option, none, some, List, [],
  ◌∷◌, ◌++◌, append_assoc, Str, contains, Dict, length, cut-append, cut-Free, Free, Free-append,
  Free-join, All, split, join, split-join, starts_with-append, ltb, arith,
}
use esr.Base.Result.{ok}
use esr.Decimal.{
  ℤ, pos, show_int, show_nat, show_nat-Digits, read_nat, read_nat-show_nat, read_int-show_nat,
  is_digit,
}
use esr.Value.{Value, nonempty}
use esr.Uri.{
  scheme, legacy_types, path_style_types, EsrUri, split_query, split_path, split_org, split_host,
  read_port, path_parts, last, read_type, read_path, parse,
}
use esr.Uri.Build.{with_port, with_org, address, all_nonempty, with_params, build, build_path}

-- A host that the address shows as it is.
pub record IsHost (host : Str) : Type 0 where
  pub full : nonempty host ≡ true
  pub no_slash : Free b'/' host
  pub no_query : Free b'?' host
  pub no_at : Free b'@' host
  pub no_colon : Free b':' host

abbrev pub IsOrg : Option Str → Type 0
IsOrg none = Unit
IsOrg (some org) = (nonempty org ≡ true) × Free b'/' org × Free b'?' org × Free b'@' org

abbrev pub IsSegment : Str → Type 0
IsSegment s = (nonempty s ≡ true) × Free b'/' s × Free b'?' s

abbrev pub port_of : Option ℕ → Option ℤ
port_of none = none
port_of (some n) = some (pos n)

Digits-Free : (c : ℕ) (s : Str) → is_digit c ≡ false → All (λ d. is_digit d ≡ true) s → Free c s
Digits-Free c [] h k = tt
Digits-Free c (d ∷ s) h k = (ground (arith, k.0), Digits-Free c s h k.1)

Free-with_port :
    (c : ℕ) (host : Str) (port : Option ℕ)
    → is_digit c ≡ false
    → b':' ≢ c
    → Free c host
    → Free c (with_port host (port_of port))
unfolding show_int
Free-with_port c host none d n h = h
Free-with_port c host (some p) d n h =
    Free-append c host (b':' ∷ show_nat p) h (n, Digits-Free c (show_nat p) d (show_nat-Digits p))

Free-with_org :
    (c : ℕ) (org : Option Str) (authority : Str)
    → b'@' ≢ c
    → ((o : Str) → org ≡ some o → Free c o)
    → Free c authority
    → Free c (with_org org authority)
Free-with_org c none authority n h k = k
Free-with_org c (some []) authority n h k = k
Free-with_org c (some (d ∷ org)) authority n h k =
    Free-append c (d ∷ org) (b'@' ∷ authority) (h (d ∷ org) refl) (n, k)

split_org-with_org :
    (org : Option Str) (authority : Str)
    → IsOrg org
    → Free b'@' authority
    → split_org (with_org org authority) ≡ ok (org, authority)
unfolding split_org
split_org-with_org none authority h k = rw (cut-Free b'@' authority k, split_org) refl
split_org-with_org (some []) authority h k = cc (h.0)
split_org-with_org (some (d ∷ org)) authority h k =
    rw (cut-append b'@' (d ∷ org) authority h.3, split_org) refl

nonempty_of_read : (s : Str) (n : ℕ) → read_nat s ≡ some n → nonempty s ≡ true
unfolding read_nat
nonempty_of_read [] n h = cc
nonempty_of_read (c ∷ s) n h = refl

show_nat-nonempty : (n : ℕ) → nonempty (show_nat n) ≡ true
show_nat-nonempty n = nonempty_of_read (show_nat n) n (read_nat-show_nat n)

split_host-with_port :
    (host : Str) (port : Option ℕ)
    → IsHost host
    → (text : Str) × (split_host (with_port host (port_of port)) ≡ (host, text))
      × (read_port text ≡ ok (port_of port))
unfolding split_host read_port show_int
split_host-with_port host none h = ([], rw (cut-Free b':' host h.no_colon, split_host) refl, refl)
split_host-with_port host (some n) h = (
  show_nat n,
  rw (cut-append b':' host (show_nat n) h.no_colon, split_host) refl,
  rw (show_nat-nonempty n, read_int-show_nat n, read_port) refl,
)

path_parts_full : (parts : List Str) → All IsSegment parts → path_parts parts ≡ parts
unfolding path_parts
path_parts_full [] h = refl
path_parts_full (p ∷ ps) h = rw (h.0.0, path_parts_full ps h.1) refl

last_full :
    (p : Str) (parts : List Str) → All IsSegment (p ∷ parts) → nonempty (last (p ∷ parts)) ≡ true
unfolding last
last_full p [] h = h.0.0
last_full p (q ∷ ps) h = last_full q ps h.1

-- The two slashes-separated parts of a legacy path, or a path of a path-style type.
abbrev pub IsPath : List Str → Type 0
IsPath [] = ⊥
IsPath (type ∷ rest) =
    All IsSegment (type ∷ rest)
    × (((contains legacy_types type ≡ true) × (length rest ≡ 1))
        ⊎ ((contains legacy_types type ≡ false)
            × (contains path_style_types type ≡ true)
            × (1 ≤ length rest)))

read_type_lem :
    (type : Str) (rest : List Str) (trailing : Bool)
    → IsPath (type ∷ rest)
    → read_type (type ∷ rest) trailing ≡ ok (type, last (type ∷ rest))
unfolding read_type last
read_type_lem type [] trailing h = ground arith
read_type_lem type (q ∷ rest) trailing h = ground arith

All-no_slash : (parts : List Str) → All IsSegment parts → All (Free b'/') parts
All-no_slash [] h = tt
All-no_slash (p ∷ ps) h = (h.0.1, All-no_slash ps h.1)

All-no_query : (parts : List Str) → All IsSegment parts → All (Free b'?') parts
All-no_query [] h = tt
All-no_query (p ∷ ps) h = (h.0.2, All-no_query ps h.1)

read_path-join :
    (type : Str) (rest : List Str)
    → IsPath (type ∷ rest)
    → read_path (split b'/' (join b'/' (type ∷ rest))) ≡ ok (type, last (type ∷ rest), type ∷ rest)
unfolding read_path
read_path-join type rest h =
    rw
      (
        split-join b'/' type rest (All-no_slash (type ∷ rest) h.0),
        path_parts_full (type ∷ rest) h.0,
        last_full type rest h.0,
        read_type_lem type rest false h,
      )
      (ground (arith, last_full type rest h.0))

Free-path : (parts : List Str) → All IsSegment parts → Free b'?' (join b'/' parts)
Free-path parts h = Free-join b'?' b'/' parts (omega arith) (All-no_query parts h)

Free-some : (c : ℕ) (u t : Str) → ◌≡◌ {A = Option Str} (some u) (some t) → Free c u → Free c t
Free-some c u t e h = let same : u ≡ t = cc in subst (Free c) same h

Free-authority :
    (org : Option Str) (host : Str) (port : Option ℕ)
    → IsOrg org
    → IsHost host
    → Free b'/' (with_org org (with_port host (port_of port)))
      × Free b'?' (with_org org (with_port host (port_of port)))
      × Free b'@' (with_port host (port_of port))
Free-authority org host port o h = (
  Free-with_org b'/' org _ (omega arith) (no_slash org o)
      (Free-with_port b'/' host port refl (omega arith) h.no_slash),
  Free-with_org b'?' org _ (omega arith) (no_query org o)
      (Free-with_port b'?' host port refl (omega arith) h.no_query),
  Free-with_port b'@' host port refl (omega arith) h.no_at,
)
  where
    no_slash : (m : Option Str) → IsOrg m → (t : Str) → m ≡ some t → Free b'/' t
    no_slash none k t e = cc
    no_slash (some u) k t e = Free-some b'/' u t e k.1

    no_query : (m : Option Str) → IsOrg m → (t : Str) → m ≡ some t → Free b'?' t
    no_query none k t e = cc
    no_query (some u) k t e = Free-some b'?' u t e k.2

split_path-append : (a path : Str) → Free b'/' a → split_path (a ++ (b'/' ∷ path)) ≡ ok (a, path)
unfolding split_path
split_path-append a path h = rw (cut-append b'/' a path h, split_path) refl

module _ (decode : Str → Dict Str) (encode : Dict Value → Str) where
  abbrev pub query_of : Dict Value → Str
  query_of [] = []
  query_of (p ∷ ps) = encode (p ∷ ps)

  split_query-with_params :
      (path : Str) (params : Dict Value)
      → Free b'?' path
      → split_query (with_params encode path params) ≡ (path, query_of params)
  unfolding split_query
  split_query-with_params path [] h = rw (cut-Free b'?' path h, split_query) refl
  split_query-with_params path (p ∷ ps) h =
      rw (cut-append b'?' path (encode (p ∷ ps)) h, split_query) refl

  -- What an address of these parts is parsed to.
  abbrev pub expected : Option Str → Str → Option ℕ → Str → List Str → Dict Value → EsrUri
  expected org host port type rest params = record {
    org = org;
    host = host;
    port = port_of port;
    type = type;
    id = last (type ∷ rest);
    segments = type ∷ rest;
    params = decode (query_of params);
  }

  with_params-append :
      (s t : Str) (params : Dict Value)
      → with_params encode (s ++ t) params ≡ s ++ with_params encode t params
  with_params-append s t [] = refl
  with_params-append s t (p ∷ ps) = append_assoc s t (b'?' ∷ encode (p ∷ ps))

  pub parse-address :
      (org : Option Str) (host : Str) (port : Option ℕ) (type : Str) (rest : List Str)
      (params : Dict Value)
      → IsOrg org
      → IsHost host
      → IsPath (type ∷ rest)
      → parse decode
          (with_params encode (address org host (port_of port) (join b'/' (type ∷ rest))) params)
        ≡ ok (expected org host port type rest params)
  unfolding parse
  parse-address org host port type rest params o h p =
      let authority : Str = with_org org (with_port host (port_of port)) in
      let path : Str = join b'/' (type ∷ rest) in
      let (no_slash, no_query, no_at) = Free-authority org host port o h in
      let (text, hosted, ported) = split_host-with_port host port h in
      let shown : Free b'?' (authority ++ (b'/' ∷ path)) =
        Free-append b'?' authority (b'/' ∷ path) no_query
          (omega arith, Free-path (type ∷ rest) p.0) in
      rw
        (
          with_params-append scheme (authority ++ (b'/' ∷ path)) params,
          starts_with-append scheme (with_params encode (authority ++ (b'/' ∷ path)) params),
          split_query-with_params (authority ++ (b'/' ∷ path)) params shown,
          split_path-append authority path no_slash,
          split_org-with_org org (with_port host (port_of port)) o no_at,
          hosted,
          h.full,
          ported,
          read_path-join type rest p,
        )
        refl

  all_nonempty-IsSegment : (parts : List Str) → All IsSegment parts → all_nonempty parts ≡ true
  unfolding all_nonempty
  all_nonempty-IsSegment [] h = refl
  all_nonempty-IsSegment (s ∷ ss) h = rw (h.0.0, all_nonempty-IsSegment ss h.1) refl

  -- A path-style address that was built from two or more parts, none of which holds a `/` or a `?`,
  -- with a host that holds none of `/ ? @ :`, an owner that is absent or nonempty and holds none of
  -- `/ ? @`, and a port that is absent or a natural number, is parsed to those parts. The
  -- parameters
  -- come back as the query codec gives them.
  pub parse-build_path :
      (org : Option Str) (host : Str) (port : Option ℕ) (type : Str) (rest : List Str)
      (params : Dict Value)
      → IsOrg org
      → IsHost host
      → contains path_style_types type ≡ true
      → contains legacy_types type ≡ false
      → 1 ≤ length rest
      → All IsSegment (type ∷ rest)
      → (text : Str) × (build_path encode (type ∷ rest) host (port_of port) org none params
          ≡ ok text)
        × (parse decode text ≡ ok (expected org host port type rest params))
  unfolding build_path
  parse-build_path org host port type rest params o h style new long parts = (
    with_params encode (address org host (port_of port) (join b'/' (type ∷ rest))) params,
    (let long' : ltb (length (type ∷ rest)) 2 ≡ false = ground arith in
        rw (long', style, h.full, all_nonempty-IsSegment (type ∷ rest) parts) refl),
    parse-address org host port type rest params o h (parts, inr (new, style, long)),
  )

  -- A legacy address that was built from a type and an id is parsed to them, under the same
  -- conditions
  -- on the id, the host, the owner and the port.
  pub parse-build :
      (org : Option Str) (host : Str) (port : Option ℕ) (type id : Str) (params : Dict Value)
      → IsOrg org
      → IsHost host
      → contains legacy_types type ≡ true
      → IsSegment type
      → IsSegment id
      → (text : Str) × (build encode type id host (port_of port) org params ≡ ok text)
        × (parse decode text ≡ ok (expected org host port type (id ∷ []) params))
  unfolding build join
  parse-build org host port type id params o h legacy t i = (
    with_params encode (address org host (port_of port) (join b'/' (type ∷ id ∷ []))) params,
    rw (legacy, h.full, i.0) refl,
    parse-address org host port type (id ∷ []) params o h ((t, (i, tt)), inl (legacy, refl)),
  )
