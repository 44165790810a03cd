-- ===== src/Proxy/Request/Url.antt =====
-- URLs by a grammar, and the first line of a request for one.
use s_system_programmin.Common.{
  no_space, is_empty, scan_word, ℕ, ◌≡◌, refl, Bool, true, false, not, ◌&&◌, Option, none, some,
  List, [], ◌∷◌, ◌++◌, append-nil, arith, codes, all, take_while, drop_while, all-append,
  take_while_before, drop_while_before, take_while-all, drop_while-all,
}
use s_system_programmin.Proxy.Request.{
  not_slash, not_colon, scan_uri, scan_host_path, scan_port, scan_hostname_port, or_default,
  HttpHeader, request_of,
}
use s_system_programmin.Proxy.Request.Scan.{scan_word-all, scan_uri_second, is_empty-append}

-- The parts of a URL; the port and the path may be missing.
pub record Url : Type 0 where
  pub hostname : List ℕ
  pub port : Option (List ℕ)
  pub path : List ℕ

abbrev pub port_text : Option (List ℕ) → List ℕ
port_text none = []
port_text (some port) = b':' ∷ port

abbrev pub host_text : Url → List ℕ
host_text u = u.hostname ++ port_text u.port

abbrev pub url_text : Url → List ℕ
url_text u = codes "http://" ++ (host_text u ++ u.path)

-- A part that is not empty and has no space and no byte that ends the part.
abbrev pub is_part : (ℕ → Bool) → List ℕ → Bool
is_part p text = not (is_empty text) && (all no_space text && all p text)

abbrev pub IsPort : Option (List ℕ) → Type 0
IsPort none = Unit
IsPort (some port) = is_part not_slash port ≡ true

abbrev pub IsPath : List ℕ → Type 0
IsPath [] = Unit
IsPath (x ∷ xs) = (x ≡ b'/') × (all no_space xs ≡ true)

pub record IsUrl (u : Url) : Type 0 where
  pub hostname : (is_part not_slash u.hostname && all not_colon u.hostname) ≡ true
  pub port : IsPort u.port
  pub path : IsPath u.path

abbrev pub request_line : (method : List ℕ) → Url → (version : List ℕ) → List ℕ
request_line method u version = method ++ (32 ∷ (url_text u ++ (32 ∷ version)))

abbrev pub port_or_80 : Option (List ℕ) → List ℕ
port_or_80 none = codes "80"
port_or_80 (some port) = port

abbrev pub path_or_root : List ℕ → List ℕ
path_or_root [] = codes "/"
path_or_root (x ∷ xs) = x ∷ xs

port_scanned : Option (List ℕ) → List ℕ
port_scanned none = []
port_scanned (some port) = port

module _ (h : List ℕ) (i : (is_part not_slash h && all not_colon h) ≡ true) where
  scan_hostname_port-eq :
      (rest port : List ℕ)
      → take_while not_colon (h ++ rest) ≡ h
      → drop_while not_colon (h ++ rest) ≡ rest
      → scan_port rest ≡ port
      → scan_hostname_port (h ++ rest) ≡ (h, port)
  unfolding scan_hostname_port
  scan_hostname_port-eq rest port e e' e'' =
      let n : is_empty h ≡ false = ground arith in rw (scan_hostname_port, e, e', n, e'') refl

  scan_hostname_port_text :
      (o : Option (List ℕ)) → IsPort o → scan_hostname_port (h ++ port_text o) ≡ (h, port_scanned o)
  unfolding port_scanned
  scan_hostname_port_text none p =
      let a : all not_colon h ≡ true = ground arith in
      scan_hostname_port-eq [] [] (rw (append-nil h) (take_while-all not_colon h a))
        (rw (append-nil h) (drop_while-all not_colon h a)) refl
  scan_hostname_port_text (some port) p =
      let a : all not_colon h ≡ true = ground arith in
      scan_hostname_port-eq (b':' ∷ port) port (take_while_before not_colon h b':' port a refl)
        (drop_while_before not_colon h b':' port a refl) (scan_word-all port (ground arith))

scan_host_path-eq :
    (host path : List ℕ)
    → is_empty host ≡ false
    → take_while not_slash (host ++ path) ≡ host
    → drop_while not_slash (host ++ path) ≡ path
    → scan_word path ≡ path
    → scan_host_path (codes "http://" ++ (host ++ path)) ≡ (host, path)
unfolding scan_host_path
scan_host_path-eq host path n e e' e'' = rw (scan_host_path, e, e', n, e'') refl

scan_host_path_text :
    (host path : List ℕ)
    → is_empty host ≡ false
    → all not_slash host ≡ true
    → IsPath path
    → scan_host_path (codes "http://" ++ (host ++ path)) ≡ (host, path)
scan_host_path_text host [] n a p =
    scan_host_path-eq host [] n (rw (append-nil host) (take_while-all not_slash host a))
      (rw (append-nil host) (drop_while-all not_slash host a)) refl
scan_host_path_text host (x ∷ xs) n a p =
    let slash : not_slash x ≡ false = ground (arith, p.0) in
    scan_host_path-eq host (x ∷ xs) n (take_while_before not_slash host x xs a slash)
      (drop_while_before not_slash host x xs a slash) (scan_word-all (x ∷ xs) (ground (arith, p.0)))

all-port_text :
    (o : Option (List ℕ))
    → IsPort o
    → (all not_slash (port_text o) ≡ true) × (all no_space (port_text o) ≡ true)
all-port_text none p = (refl, refl)
all-port_text (some port) p = (ground arith, ground arith)

all-path : (path : List ℕ) → IsPath path → all no_space path ≡ true
all-path [] p = refl
all-path (x ∷ xs) p = ground (arith, p.0)

module _ (u : Url) (i : IsUrl u) where
  host_text-not_slash : all not_slash (host_text u) ≡ true
  host_text-not_slash = ground (
    arith,
    i.hostname,
    all-append not_slash u.hostname (port_text u.port),
    all-port_text u.port i.port,
  )

  pub host_text-no_space : all no_space (host_text u) ≡ true
  host_text-no_space = ground (
    arith,
    i.hostname,
    all-append no_space u.hostname (port_text u.port),
    all-port_text u.port i.port,
  )

  url_text-no_space : all no_space (url_text u) ≡ true
  url_text-no_space =
      ground (
        arith,
        all-append no_space (host_text u) u.path,
        host_text-no_space,
        all-path u.path i.path,
      )

  pub host_text_not_empty : is_empty (host_text u) ≡ false
  host_text_not_empty = is_empty-append u.hostname (port_text u.port) (ground (arith, i.hostname))

  scan_uri_request :
      (method version : List ℕ)
      → is_empty method ≡ false
      → all no_space method ≡ true
      → scan_uri (request_line method u version) ≡ url_text u
  scan_uri_request method version n a =
      scan_uri_second method (url_text u) version n a refl url_text-no_space

or_default-port :
    (o : Option (List ℕ)) → IsPort o → or_default (codes "80") (port_scanned o) ≡ port_or_80 o
unfolding port_scanned
or_default-port none p = refl
or_default-port (some port) p = let n : is_empty port ≡ false = ground arith in rw n refl

or_default-path : (path : List ℕ) → or_default (codes "/") path ≡ path_or_root path
or_default-path [] = refl
or_default-path (x ∷ xs) = refl

request_of-parts :
    (buf uri host path hostname port : List ℕ) (hdrs : List HttpHeader)
    → scan_uri buf ≡ uri
    → scan_host_path uri ≡ (host, path)
    → scan_hostname_port host ≡ (hostname, port)
    → request_of buf hdrs ≡ record {
      uri = uri;
      path = or_default (codes "/") path;
      host = host;
      hostname = hostname;
      port = or_default (codes "80") port;
      extra_hdrs = hdrs;
    }
unfolding request_of
request_of-parts buf uri host path hostname port hdrs e e' e'' = rw (e, e', e'') refl

pub request_of_url :
    (method version : List ℕ) (u : Url) (hdrs : List HttpHeader)
    → is_part no_space method ≡ true
    → IsUrl u
    → request_of (request_line method u version) hdrs ≡ record {
      uri = url_text u;
      path = path_or_root u.path;
      host = host_text u;
      hostname = u.hostname;
      port = port_or_80 u.port;
      extra_hdrs = hdrs;
    }
request_of_url method version u hdrs m i =
    rw (← or_default-path u.path, ← or_default-port u.port i.port)
      (request_of-parts (request_line method u version) (url_text u) (host_text u) u.path u.hostname
        (port_scanned u.port) hdrs
        (scan_uri_request u i method version (ground arith) (ground arith))
        (scan_host_path_text (host_text u) u.path (host_text_not_empty u i)
          (host_text-not_slash u i) i.path)
        (scan_hostname_port_text u.hostname i.hostname u.port i.port))
