-- ===== src/HelperAuth/Requests/Guard.antt =====
-- Which requests `guard_request` lets pass.
use nuri_passkey_prf_smartca.Base.{
  ℕ, ◌≤◌, Bool, true, false, ◌&&◌, ◌||◌, not, Option, none, some, ◌≡◌, ◌≢◌, ◌⊎◌, ◌↔◌, inl, inr,
  refl, arith, Text, codes, leb, equal, equal_iff, if◌then◌else◌, contains_text, strip, lower,
  Bool-cases,
}
use nuri_passkey_prf_smartca.HelperAuth.Cookies.{partition}
use nuri_passkey_prf_smartca.HelperAuth.Requests.Origin.{Origin}
use nuri_passkey_prf_smartca.HelperAuth.Requests.Hosts.{
  HostNames, allowed_hosts_iff, is_own_origin_iff,
}
use nuri_passkey_prf_smartca.HelperAuth.Pairing.{Surroundings, Pairing, remaining}
use nuri_passkey_prf_smartca.HelperAuth.Requests.{
  Headers, Denial, preflight, bad_host, bad_origin, cross_site, pair_by_post, not_json,
  no_same_origin, not_paired, lowered, allowed_hosts, is_own_origin, token_matches, method_name,
  media_type, is_paired, guard_access, guard_request,
}

module _ {W : Type 0} (out : Surroundings W) where
  abbrev Verdict : Type 0
  Verdict = Option Denial × Option (Pairing W)

  -- The value has the property, if it is there.
  abbrev Present : (Text → Bool) → Option Text → Type 0
  Present f o = (t : Text) → o ≡ some t → f t ≡ true

  Present-lem :
      (f : Text → Bool) (o : Option Text)
      → (elim o as (λ _. Bool) [ none ↦ true | some t ↦ f t ] ≡ true) ↔ Present f o
  Present-lem f none = (λ e t q. cc, λ p. refl)
  Present-lem f (some t) = (λ e t' q. let same : t ≡ t' = cc in rw (← same) e, λ p. p t refl)

  -- A valid session, on a request that is from the page itself by its Origin or Sec-Fetch-Site.
  pub record HasSession (h : Headers) (pairing : Option (Pairing W)) : Type 0 where
    pub object : Pairing W
    pub in_use : pairing ≡ some object
    pub valid : 1 ≤ (remaining out h.cookie object).0
    pub same_origin : (h.origin ≢ none) ⊎ (lowered h.sec_fetch_site ≡ codes "same-origin")

  -- What a protected path wants.
  pub record Protected (token m bare : Text) (h : Headers) (pairing : Option (Pairing W))
      : Type 0 where
    pub same_site : Present (λ s. equal (lower (strip s)) (codes "same-origin")) h.sec_fetch_site
    pub pair_by_post : bare ≡ codes "/pair" → m ≡ codes "POST"
    pub json : m ≡ codes "POST" → media_type h.content_type ≡ codes "application/json"
    pub access :
        bare ≢ codes "/pair" → (token_matches h.authorization token ≡ true) ⊎ HasSession h pairing

  access_iff :
      (token valid same : Bool) (p p' : Option (Pairing W))
      → ((if◌then◌else◌ {A = Verdict} token
            (none, p)
            (if valid
              then ((if same then none else some no_same_origin), p')
              else (some not_paired, p'))).0
          ≡ none)
        ↔ ((token ≡ true) ⊎ ((valid ≡ true) × (same ≡ true)))
  access_iff true valid same p p' = (λ _. inl refl, λ _. refl)
  access_iff false true true p p' = (λ _. inr (refl, refl), λ _. refl)
  access_iff false true false p p' = (λ e. cc, elim [ inl e ↦ cc | inr (e, f) ↦ cc ])
  access_iff false false same p p' = (λ e. cc, elim [ inl e ↦ cc | inr (e, f) ↦ cc ])

  own_iff :
      (o : Option Text) (b : Bool)
      → (elim o as (λ _. Bool) [ some _ ↦ true | none ↦ b ] ≡ true) ↔ ((o ≢ none) ⊎ (b ≡ true))
  own_iff none b = (λ e. inr e, elim [ inl ne ↦ absurd (ne refl) | inr e ↦ e ])
  own_iff (some t) b = (λ e. inl (λ q. cc), λ _. refl)

  leb_of : (n : ℕ) → 1 ≤ n → leb 1 n ≡ true
  leb_of n h = ground arith

  is_paired_iff :
      (cookie : Option Text) (pairing : Option (Pairing W))
      → ((is_paired out cookie pairing).0 ≡ true)
        ↔ ((p : Pairing W) × (pairing ≡ some p) × (1 ≤ (remaining out cookie p).0))
  unfolding is_paired
  is_paired_iff cookie none = (λ e. cc, λ (p, q, v). cc)
  is_paired_iff cookie (some p) = (
    λ e. (p, refl, ground arith),
    λ (p', q, v). let same : p ≡ p' = cc in leb_of _ (rw (← same) at v),
  )

  guard_access_iff :
      (h : Headers) (token : Text) (pairing : Option (Pairing W))
      → ((guard_access out h token pairing).0 ≡ none)
        ↔ ((token_matches h.authorization token ≡ true) ⊎ HasSession h pairing)
  unfolding guard_access
  guard_access_iff h token pairing =
      let b = equal (lowered h.sec_fetch_site) (codes "same-origin") in
      let all =
        access_iff (token_matches h.authorization token) (is_paired out h.cookie pairing).0 _
          pairing (is_paired out h.cookie pairing).1 in
      let own = own_iff h.origin b in
      let paired = is_paired_iff h.cookie pairing in
      let site = equal_iff (lowered h.sec_fetch_site) (codes "same-origin") in
      (
        λ e. elim (all.0 e) [
          | inl t ↦ inl t
          | inr (v, o) ↦ inr (record {
            object = (paired.0 v).0;
            in_use = (paired.0 v).1;
            valid = (paired.0 v).2;
            same_origin = elim (own.0 o) [ inl x ↦ inl x | inr x ↦ inr (site.0 x) ];
          })
        ],
        elim [
          | inl t ↦ all.1 (inl t)
          | inr s ↦ all.1 (
              inr (
                paired.1 (s.object, s.in_use, s.valid),
                own.1 (elim s.same_origin [ inl x ↦ inl x | inr x ↦ inr (site.1 x) ]),
              ))
        ],
      )

  guarded_iff :
      (site pair post json : Bool) (p : Option (Pairing W)) (rest : Verdict)
      → ((if◌then◌else◌ {A = Verdict}
            (not site)
            (some cross_site, p)
            (if pair && not post
              then (some pair_by_post, p)
              else if post && not json
              then (some not_json, p)
              else if pair
              then (none, p)
              else rest)).0
          ≡ none)
        ↔ ((site ≡ true)
            × (pair ≡ true → post ≡ true)
            × (post ≡ true → json ≡ true)
            × (pair ≡ false → rest.0 ≡ none))
  guarded_iff false pair post json p rest = (λ e. cc, λ (a, b, c, d). cc)
  guarded_iff true true false json p rest = (λ e. cc, λ (a, b, c, d). cc (b refl))
  guarded_iff true true true false p rest = (λ e. cc, λ (a, b, c, d). cc (c refl))
  guarded_iff true true true true p rest = (λ e. (refl, λ _. refl, λ _. refl, λ q. cc), λ _. refl)
  guarded_iff true false true false p rest = (λ e. cc, λ (a, b, c, d). cc (c refl))
  guarded_iff true false true true p rest =
      (λ e. (refl, λ q. cc, λ _. refl, λ _. e), λ (a, b, c, d). d refl)
  guarded_iff true false false json p rest =
      (λ e. (refl, λ q. cc, λ q. cc, λ _. e), λ (a, b, c, d). d refl)

  request_iff :
      (options host own guarded : Bool) (p : Option (Pairing W)) (rest : Verdict)
      → ((if◌then◌else◌ {A = Verdict} options
            (some preflight, p)
            (if not host
              then (some bad_host, p)
              else if not own
              then (some bad_origin, p)
              else if not guarded
              then (none, p)
              else rest)).0
          ≡ none)
        ↔ ((options ≡ false) × (host ≡ true) × (own ≡ true) × (guarded ≡ true → rest.0 ≡ none))
  request_iff true host own guarded p rest = (λ e. cc, λ (a, b, c, d). cc)
  request_iff false false own guarded p rest = (λ e. cc, λ (a, b, c, d). cc)
  request_iff false true false guarded p rest = (λ e. cc, λ (a, b, c, d). cc)
  request_iff false true true false p rest = (λ e. (refl, refl, refl, λ q. cc), λ _. refl)
  request_iff false true true true p rest =
      (λ e. (refl, refl, refl, λ _. e), λ (a, b, c, d). d refl)

  differs : (a b : Text) → (equal a b ≡ false) ↔ (a ≢ b)
  differs a b = (
    λ e same. let t = (equal_iff a b).1 same in cc,
    λ ne. elim (Bool-cases (equal a b)) [ inl e ↦ absurd (ne ((equal_iff a b).0 e)) | inr e ↦ e ],
  )

  either : (a b : Bool) → (a || b ≡ true) ↔ ((a ≡ true) ⊎ (b ≡ true))
  either true b = (λ _. inl refl, λ _. refl)
  either false b = (λ e. inr e, elim [ inl e ↦ cc | inr e ↦ e ])

  wanted_iff :
      (token m bare : Text) (h : Headers) (pairing : Option (Pairing W))
      → let site : Bool = elim h.sec_fetch_site [
        | none ↦ true
        | some s ↦ equal (lower (strip s)) (codes "same-origin")
      ] in
        ((site ≡ true)
          × (equal bare (codes "/pair") ≡ true → equal m (codes "POST") ≡ true)
          × (equal m (codes "POST") ≡ true
              → equal (media_type h.content_type) (codes "application/json") ≡ true)
          × (equal bare (codes "/pair") ≡ false → (guard_access out h token pairing).0 ≡ none))
        ↔ Protected token m bare h pairing
  wanted_iff token m bare h pairing =
      let site =
        Present-lem (λ s. equal (lower (strip s)) (codes "same-origin")) h.sec_fetch_site in
      let access = guard_access_iff h token pairing in
      let for_pair = equal_iff bare (codes "/pair") in
      let post = equal_iff m (codes "POST") in
      let json = equal_iff (media_type h.content_type) (codes "application/json") in
      let other = differs bare (codes "/pair") in
      (
        λ (s, p, j, acc). record {
          same_site = site.0 s;
          pair_by_post = λ q. post.0 (p (for_pair.1 q));
          json = λ q. json.0 (j (post.1 q));
          access = λ ne. access.0 (acc (other.1 ne));
        },
        λ p. (
          site.1 p.same_site,
          λ q. post.1 (p.pair_by_post (for_pair.0 q)),
          λ q. json.1 (p.json (post.0 q)),
          λ ne. access.1 (p.access (other.0 ne)),
        ),
      )

  -- The request may pass.
  pub record Allowed (is_protected : Text → Bool) (port : ℕ) (token method path : Text)
      (h : Headers) (pairing : Option (Pairing W)) : Type 0 where
    pub no_preflight : method_name method ≢ codes "OPTIONS"
    pub own_host : HostNames port (lowered h.host)
    pub own_origin : (o : Text) → h.origin ≡ some o → Origin (lowered h.host) o
    pub guarded :
        let bare = (partition b'?' path).0 in
        (bare ≡ codes "/pair") ⊎ (is_protected bare ≡ true)
        → Protected token (method_name method) bare h pairing

  -- `guard_request` lets a request pass exactly if it is no preflight; its Host is 127.0.0.1, localhost
  -- or [::1] with the port; its Origin, if it has one, without the space around it, control characters in
  -- front, tabs and line ends, is in any case of letters http:// and that host, with nothing behind it but
  -- a slash, a question mark and a number sign, each at most once and in this order; and, for /pair and the protected paths: is not
  -- cross-site by Sec-Fetch-Site, is a POST if it is for /pair, is JSON if it is a POST, and, unless it
  -- is for /pair, carries the service token, or a valid session and a sign of the same origin.
  pub guard_request-Allowed :
      (is_protected : Text → Bool) (port : ℕ) (token method path : Text) (h : Headers)
      (pairing : Option (Pairing W))
      → ((guard_request out is_protected port token method path h pairing).0 ≡ none)
        ↔ Allowed is_protected port token method path h pairing
  unfolding guard_request
  guard_request-Allowed is_protected port token method path h pairing =
      let m = method_name method in
      let host = lowered h.host in
      let bare = (partition b'?' path).0 in
      let hosts = allowed_hosts_iff port host in
      let options = differs m (codes "OPTIONS") in
      let own = Present-lem (is_own_origin host) h.origin in
      let for_pair = equal_iff bare (codes "/pair") in
      let guarded = either (equal bare (codes "/pair")) (is_protected bare) in
      let outer =
        request_iff (equal m (codes "OPTIONS")) (contains_text host (allowed_hosts port)) _
          (equal bare (codes "/pair") || is_protected bare) pairing _ in
      let inner =
        guarded_iff _ (equal bare (codes "/pair")) (equal m (codes "POST"))
          (equal (media_type h.content_type) (codes "application/json")) pairing
          (guard_access out h token pairing) in
      let protected = wanted_iff token m bare h pairing in
      (
        λ e.
            let (a, b, c, rest) = outer.0 e in
            record {
              no_preflight = options.0 a;
              own_host = hosts.0 b;
              own_origin = λ o q. (is_own_origin_iff port host o (hosts.0 b)).0 (own.0 c o q);
              guarded = λ which. protected.0 (
                  inner.0
                    (rest (guarded.1 (elim which [ inl x ↦ inl (for_pair.1 x) | inr x ↦ inr x ]))));
            },
        λ a. outer.1 (
          options.1 a.no_preflight,
          hosts.1 a.own_host,
          own.1 (λ o q. (is_own_origin_iff port host o a.own_host).1 (a.own_origin o q)),
          λ g. inner.1 (
              protected.1
                (a.guarded (elim (guarded.0 g) [ inl x ↦ inl (for_pair.0 x) | inr x ↦ inr x ]))),
        ),
      )
