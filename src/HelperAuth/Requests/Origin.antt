-- ===== src/HelperAuth/Requests/Origin.antt =====
-- Which texts `is_own_origin` takes for the origin of an allowed host.
use nuri_passkey_prf_smartca.Base.{
  ℕ, Bool, true, false, ◌&&◌, ◌||◌, not, [], ◌∷◌, ◌++◌, Option, none, some, ◌≡◌, ◌≢◌, inl, inr,
  refl, sym, ap, ◌∙◌, subst, arith, Text, codes, ◌==◌, ==_iff, equal, equal_iff, equal_refl,
  append_assoc, if◌then◌else◌, contains, contains_text, starts_with, strip, lower, drop, is_nil,
  Bool-cases, All,
}
use nuri_passkey_prf_smartca.HelperAuth.Cookies.{partition}
use nuri_passkey_prf_smartca.HelperAuth.Requests.{
  Url, or_empty, all_scheme, is_letter, split_netloc, split_scheme, urlsplit, without_breaks,
  drop_controls, is_own_origin,
}

-- The text of a header as it is split: in lower case, without the space around it, the control
-- characters in front, tabs and line ends.
abbrev pub cleaned : Text → Text
cleaned o = without_breaks (drop_controls (lower (strip o)))

-- At most a slash, a question mark and a number sign, in this order.
pub data Trailing : Text → Type 0 where
  trailing :
      (a b c : Bool)
      → Trailing (
          (if a then codes "/" else [])
          ++ ((if b then codes "?" else []) ++ (if c then codes "#" else [])))

-- The origin is http:// and the host, with at most these three characters behind it.
unfoldable pub Origin : Text → Text → Type 0
Origin host o = (tail : Text) × Trailing tail × (cleaned o ≡ codes "http://" ++ (host ++ tail))

partition-back :
    (sep : ℕ) (t : Text) (name : Text) (after : Option Text)
    → partition sep t ≡ (name, after)
    → t ≡ name ++ (elim after as (λ _. Text) [ none ↦ [] | some r ↦ sep ∷ r ])
unfolding partition
partition-back sep [] name after e =
    let p : [] ≡ name = ap (λ (x : Text × Option Text). x.0) e in
    let q : none ≡ after = ap (λ (x : Text × Option Text). x.1) e in rw (← p, ← q) refl
partition-back sep (c ∷ cs) name after e =
    go (c == sep) refl (partition sep cs) (partition-back sep cs _ _ refl) e
  where
    go :
        (b : Bool)
        → c == sep ≡ b
        → (x : Text × Option Text)
        → cs ≡ x.0 ++ (elim x.1 as (λ _. Text) [ none ↦ [] | some r ↦ sep ∷ r ])
        → if◌then◌else◌ {A = Text × Option Text} b ([], some cs) (c ∷ x.0, x.1) ≡ (name, after)
        → c ∷ cs ≡ name ++ (elim after as (λ _. Text) [ none ↦ [] | some r ↦ sep ∷ r ])
    go true q x below e =
        let p₁ : [] ≡ name = ap (λ (x : Text × Option Text). x.0) e in
        let p₂ : some cs ≡ after = ap (λ (x : Text × Option Text). x.1) e in
        rw (← p₁, ← p₂) (ap (λ d. d ∷ cs) ((==_iff c sep).0 q))
    go false q x below e =
        let p₁ : c ∷ x.0 ≡ name = ap (λ (x : Text × Option Text). x.0) e in
        let p₂ : x.1 ≡ after = ap (λ (x : Text × Option Text). x.1) e in
        rw (← p₁, ← p₂) (ap (λ l. c ∷ l) below)

split_netloc-back : (t : Text) → t ≡ (split_netloc t).0 ++ (split_netloc t).1
unfolding split_netloc
split_netloc-back [] = refl
split_netloc-back (c ∷ cs) = go (contains c (codes "/?#")) (split_netloc-back cs)
  where
    go :
        (b : Bool)
        → cs ≡ (split_netloc cs).0 ++ (split_netloc cs).1
        → c ∷ cs
          ≡ (if◌then◌else◌ {A = Text × Text} b
              ([], c ∷ cs)
              (c ∷ (split_netloc cs).0, (split_netloc cs).1)).0
            ++ (if◌then◌else◌ {A = Text × Text} b
                ([], c ∷ cs)
                (c ∷ (split_netloc cs).0, (split_netloc cs).1)).1
    go true e = refl
    go false e = ap (λ l. c ∷ l) e

-- No character that ends the name of a host.
abbrev pub IsPlain : ℕ → Type 0
IsPlain c = contains c (codes "/?#") ≡ false

split_netloc-plain :
    (host tail : Text)
    → All IsPlain host
    → split_netloc tail ≡ ([], tail)
    → split_netloc (host ++ tail) ≡ (host, tail)
unfolding split_netloc
split_netloc-plain [] tail h e = e
split_netloc-plain (c ∷ cs) tail h e = rw (h.0, split_netloc-plain cs tail h.1 e) refl

-- A host that is split off whole.
pub record IsHost (host : Text) : Type 0 where
  pub plain : All IsPlain host
  pub some_text : host ≢ []
  pub paired :
      (contains b'[' host && not (contains b']' host))
        || (contains b']' host && not (contains b'[' host))
      ≡ false

-- The parts of a text that is cleaned, and what the conditions say of them.
abbrev netloc_of : Text → Text × Text
netloc_of t =
    let rest = (split_scheme t).1 in
    if starts_with (codes "//") rest then split_netloc (drop 2 rest) else ([], rest)

abbrev is_unpaired : Text → Bool
is_unpaired netloc =
    (contains b'[' netloc && not (contains b']' netloc))
    || (contains b']' netloc && not (contains b'[' netloc))

abbrev url_of : Text → Url
url_of t =
    let (before, fragment) = partition b'#' (netloc_of t).1 in
    let (path, query) = partition b'?' before in
    record {
      scheme = (split_scheme t).0;
      netloc = (netloc_of t).0;
      path = path;
      query = or_empty query;
      fragment = or_empty fragment;
    }

abbrev fits : Text → Url → Bool
fits host u =
    equal u.scheme (codes "http")
    && equal u.netloc host
    && contains_text u.path ([] ∷ codes "/" ∷ [])
    && is_nil u.query
    && is_nil u.fragment

abbrev pub is_own : Text → Text → Bool
is_own host t = if is_unpaired (netloc_of t).0 then false else fits host (url_of t)

pushed :
    (b : Bool) (u : Url) (f : Url → Bool)
    → (elim (if b then none else some u) as (λ _. Bool) [ none ↦ false | some u ↦ f u ])
      ≡ (if b then false else f u)
pushed true u f = refl
pushed false u f = refl

pub is_own_lem : (host o : Text) → is_own_origin host o ≡ is_own host (cleaned o)
unfolding is_own_origin urlsplit
is_own_lem host o = pushed (is_unpaired (netloc_of (cleaned o)).0) (url_of (cleaned o)) (fits host)

cut_off : {tail : Text} → Trailing tail → split_netloc tail ≡ ([], tail)
unfolding split_netloc contains
cut_off (trailing true b c) = refl
cut_off (trailing false true c) = refl
cut_off (trailing false false true) = refl
cut_off (trailing false false false) = refl

read_off :
    {tail : Text}
    → Trailing tail
    → (contains_text (partition b'?' (partition b'#' tail).0).0 ([] ∷ codes "/" ∷ [])
        && is_nil (or_empty (partition b'?' (partition b'#' tail).0).1)
        && is_nil (or_empty (partition b'#' tail).1))
      ≡ true
unfolding partition contains_text equal
read_off (trailing true true true) = refl
read_off (trailing true true false) = refl
read_off (trailing true false true) = refl
read_off (trailing true false false) = refl
read_off (trailing false true true) = refl
read_off (trailing false true false) = refl
read_off (trailing false false true) = refl
read_off (trailing false false false) = refl

pub origin-taken :
    (host tail : Text)
    → IsHost host
    → Trailing tail
    → is_own host (codes "http://" ++ (host ++ tail)) ≡ true
unfolding split_scheme partition all_scheme starts_with equal contains_text
origin-taken host tail h t =
    rw (split_netloc-plain host tail h.plain (cut_off t), h.paired, equal_refl host) (read_off t)

-- The other way round: the conditions in turn.
five :
    (u a b c d e : Bool)
    → (if u then false else a && b && c && d && e) ≡ true
    → (a ≡ true) × (b ≡ true) × (c ≡ true) × (d ≡ true) × (e ≡ true)
five true a b c d e h = cc
five false a b c d e h = ground arith

split_scheme-http :
    (t : Text)
    → equal (split_scheme t).0 (codes "http") ≡ true
    → t ≡ codes "http:" ++ (split_scheme t).1
unfolding split_scheme
split_scheme-http t = go (partition b':' t) (partition-back b':' t _ _ refl)
  where
    chosen :
        (b : Bool) (name rest : Text)
        → t ≡ name ++ b':' ∷ rest
        → let x = if◌then◌else◌ {A = Text × Text} b (name, rest) ([], t) in
          equal x.0 (codes "http") ≡ true → t ≡ codes "http:" ++ x.1
    chosen true name rest e h = rw ((equal_iff name (codes "http")).0 h) at e
    chosen false name rest e h = unfold equal in cc

    go :
        (x : Text × Option Text)
        → t ≡ x.0 ++ (elim x.1 as (λ _. Text) [ none ↦ [] | some r ↦ b':' ∷ r ])
        → let y = elim x.1 as (λ _. Text × Text) [
          | none ↦ ([], t)
          | some rest ↦ if is_letter x.0 && all_scheme x.0 then (x.0, rest) else ([], t)
        ] in
          equal y.0 (codes "http") ≡ true → t ≡ codes "http:" ++ y.1
    go (name, none) e h = unfold equal in cc
    go (name, some rest) e h = chosen (is_letter name && all_scheme name) name rest e h

slashes-back : (t : Text) → starts_with (codes "//") t ≡ true → t ≡ codes "//" ++ drop 2 t
unfolding starts_with
slashes-back [] h = cc
slashes-back (a ∷ []) h = absurd (ground (arith, h))
slashes-back (a ∷ b ∷ t) h =
    let p : a ≡ b'/' = ground (arith, h) in let q : b ≡ b'/' = ground (arith, h) in rw (p, q) refl

cut_empty :
    (sep : ℕ) (t : Text)
    → is_nil (or_empty (partition sep t).1) ≡ true
    → (b : Bool) × (t ≡ (partition sep t).0 ++ (if b then sep ∷ [] else []))
cut_empty sep t = go (partition sep t) (partition-back sep t _ _ refl)
  where
    go :
        (x : Text × Option Text)
        → t ≡ x.0 ++ (elim x.1 as (λ _. Text) [ none ↦ [] | some r ↦ sep ∷ r ])
        → is_nil (or_empty x.1) ≡ true
        → (b : Bool) × (t ≡ x.0 ++ (if b then sep ∷ [] else []))
    go (name, none) e h = (false, e)
    go (name, some []) e h = (true, e)
    go (name, some (c ∷ cs)) e h = cc

short_path :
    (path : Text)
    → contains_text path ([] ∷ codes "/" ∷ []) ≡ true
    → (b : Bool) × (path ≡ (if b then codes "/" else []))
unfolding contains_text
short_path path h = elim (Bool-cases (equal path [])) [
  | inl e ↦ (false, (equal_iff path []).0 e)
  | inr e ↦ elim (Bool-cases (equal path (codes "/"))) [
    | inl f ↦ (true, (equal_iff path (codes "/")).0 f)
    | inr f ↦ cc (rw (e, f) at h)
  ]
]

tail-Trailing :
    (below : Text)
    → contains_text (partition b'?' (partition b'#' below).0).0 ([] ∷ codes "/" ∷ []) ≡ true
    → is_nil (or_empty (partition b'?' (partition b'#' below).0).1) ≡ true
    → is_nil (or_empty (partition b'#' below).1) ≡ true
    → Trailing below
tail-Trailing below p q f =
    let (c, ec) = cut_empty b'#' below f in
    let (b, eb) = cut_empty b'?' (partition b'#' below).0 q in
    let (a, ea) = short_path (partition b'?' (partition b'#' below).0).0 p in
    subst Trailing
      (sym (
        ec
        ∙ ap (λ l. l ++ (if c then codes "#" else []))
            (eb ∙ ap (λ l. l ++ (if b then codes "?" else [])) ea)
        ∙ append_assoc (if a then codes "/" else []) (if b then codes "?" else [])
            (if c then codes "#" else [])))
      (trailing a b c)

pub taken-origin :
    (host t : Text)
    → host ≢ []
    → is_own host t ≡ true
    → (tail : Text) × Trailing tail × (t ≡ codes "http://" ++ (host ++ tail))
taken-origin host t ne own =
    let u = url_of t in
    let (a, b, c, d, e) =
      five (is_unpaired u.netloc) (equal u.scheme (codes "http")) (equal u.netloc host)
        (contains_text u.path ([] ∷ codes "/" ∷ [])) (is_nil u.query) (is_nil u.fragment) own in
    let (same, whole) = split_back (starts_with (codes "//") (split_scheme t).1) refl b in
    (
      (netloc_of t).1,
      tail-Trailing (netloc_of t).1 c d e,
      split_scheme-http t a ∙ ap (λ l. codes "http:" ++ l) whole,
    )
  where
    split_back :
        (slashes : Bool)
        → starts_with (codes "//") (split_scheme t).1 ≡ slashes
        → let rest = (split_scheme t).1 in
          let x = if◌then◌else◌ {A = Text × Text} slashes (split_netloc (drop 2 rest)) ([], rest) in
          equal x.0 host ≡ true → (x.0 ≡ host) × (rest ≡ codes "//" ++ (host ++ x.1))
    split_back true q b =
        let rest = (split_scheme t).1 in
        let x = split_netloc (drop 2 rest) in
        let is_host : x.0 ≡ host = (equal_iff x.0 host).0 b in
        (
          is_host,
          slashes-back rest q
              ∙ ap (λ l. codes "//" ++ l)
                  (split_netloc-back (drop 2 rest) ∙ ap (λ l. l ++ x.1) is_host),
        )
    split_back false q b = absurd (ne (sym ((equal_iff [] host).0 b)))
