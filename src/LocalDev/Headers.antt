-- ===== src/LocalDev/Headers.antt =====
-- The headers that the upstream gets (internal/localdev/server.go).
use anyauth.Base.{
  String, sym, ◌∙◌, map, if◌then◌else◌, arith, ◌≡◌, ◌≢◌, ◌⊎◌, inl, inr, refl, List, [], ◌∷◌, ◌==◌,
  Any, Any-map, All, All-map, ne_of_eq-false, ap, true, Bool-cases,
}
use anyauth.Policy.Matching.{Starts, has_prefix_iff}
use anyauth.LocalDev.Proxy.{Identity}
use anyauth.LocalDev.Proxying.{
  Headers, is_anyauth, strip_names, strip_anyauth_headers, del, set_header_if_present, set_all,
  identity_headers, direct,
}

All-self : {A : Type 0} (xs : List A) → All (λ x. Any (λ y. x ≡ y) xs) xs
All-self [] = tt
All-self (x ∷ xs) = (inl refl, All-map _ _ (λ y h. inr h) xs (All-self xs))

-- Two facts of every entry are one.
All-both :
    {A : Type 0} (P Q : A → Type 0) (xs : List A) → All P xs → All Q xs → All (λ x. P x × Q x) xs
All-both P Q [] h k = tt
All-both P Q (x ∷ xs) (p, h) (q, k) = ((p, q), All-both P Q xs h k)

Any-names :
    (e : String × String) (h : List (String × String))
    → Any (λ x. e ≡ x) h
    → Any (λ n. n ≡ e.0) (map (λ (x : String × String). x.0) h)
Any-names e [] there = there
Any-names e (x ∷ h) (inl same) = inl (ap (λ (y : String × String). y.0) (sym same))
Any-names e (x ∷ h) (inr there) = inr (Any-names e h there)

module _ (canonical to_lower : String → String) where
  -- A header whose lower-case name begins with x-anyauth-.
  abbrev pub SpeaksOfIdentity : String → Type 0
  SpeaksOfIdentity name = Starts (to_lower name) "x-anyauth-"

  -- A header of the client, unchanged, that does not speak of identities and does not authorize an agent.
  pub record IsPlain (id : Identity) (h : Headers) (e : String × String) : Type 0 where
    pub sent : Any (λ x. e ≡ x) h
    pub silent : ¬ SpeaksOfIdentity e.0
    pub unauthorized : id.actor_type ≡ "agent" → e.0 ≢ canonical "Authorization"

  -- A plain header, or one of those that tell of the identity, by its canonical name.
  abbrev pub IsTold : Identity → Headers → String × String → Type 0
  IsTold id h e =
      IsPlain id h e
      ⊎ Any (λ (t : String × String). (e.0 ≡ canonical t.0) × (e.1 ≡ t.1) × (e.1 ≢ ""))
          (identity_headers canonical to_lower id)

  del-All :
      (P : String × String → Type 0) (name : String) (h : Headers)
      → All P h
      → All P (del canonical to_lower name h)
  unfolding del
  del-All P name [] p = tt
  del-All P name ((n, v) ∷ rest) (p, ps) = elim (Bool-cases (n == canonical name)) [
    | inl drop ↦ rw drop (del-All P name rest ps)
    | inr keep ↦ rw keep (p, del-All P name rest ps)
  ]

  del-named :
      (name : String) (h : Headers)
      → All (λ e. e.0 ≢ canonical name) (del canonical to_lower name h)
  unfolding del
  del-named name [] = tt
  del-named name ((n, v) ∷ rest) = elim (Bool-cases (n == canonical name)) [
    | inl drop ↦ rw drop (del-named name rest)
    | inr keep ↦ rw keep (ne_of_eq-false n (canonical name) keep, del-named name rest)
  ]

  strip_names-All :
      (P : String × String → Type 0) (names : List String) (h : Headers)
      → All P h
      → All P (strip_names canonical to_lower names h)
  unfolding strip_names
  strip_names-All P [] h p = p
  strip_names-All P (name ∷ names) h p = elim (Bool-cases (is_anyauth canonical to_lower name)) [
    | inl drop ↦ rw drop (strip_names-All P names _ (del-All P name h p))
    | inr keep ↦ rw keep (strip_names-All P names h p)
  ]

  -- A header with a canonical name that is not one of those gone through, or speaks of no identity.
  abbrev IsClear : List String → String × String → Type 0
  IsClear names e = Any (λ n. n ≡ e.0) names → ¬ SpeaksOfIdentity e.0

  strip_names-IsClear :
      (names : List String) (h : Headers)
      → All (λ e. canonical e.0 ≡ e.0) h
      → All (IsClear names) (strip_names canonical to_lower names h)
  unfolding strip_names
  strip_names-IsClear [] h c = All-map _ (IsClear []) (λ e k there. absurd there) h c
  strip_names-IsClear (name ∷ names) h c = elim (Bool-cases (is_anyauth canonical to_lower name)) [
    | inl drop ↦
        let Own : String × String → Type 0 = λ e. canonical e.0 ≡ e.0 in
        let Other : String × String → Type 0 = λ e. e.0 ≢ canonical name in
        let h' = del canonical to_lower name h in
        let rest = strip_names-IsClear names h' (del-All Own name h c) in
        let own = strip_names-All Own names h' (del-All Own name h c) in
        let other = strip_names-All Other names h' (del-named name h) in
        rw drop (
          All-map _ (IsClear (name ∷ names))
            (λ e (clear, (canon, apart)). elim [
              | inl same ↦ absurd (apart (sym canon ∙ ap canonical (sym same)))
              | inr there ↦ clear there
            ])
            _ (All-both _ _ _ rest (All-both _ _ _ own other)))
    | inr keep ↦ rw keep (
        All-map (IsClear names) (IsClear (name ∷ names))
          (λ e clear. elim [
            | inl same ↦ λ speaks.
                let found : is_anyauth canonical to_lower name ≡ true =
                  rw same ((has_prefix_iff (to_lower e.0) "x-anyauth-").1 speaks) in
                absurd (ground arith)
            | inr there ↦ clear there
          ])
          _ (strip_names-IsClear names h c))
  ]

  set_all-All :
      (P : String × String → Type 0) (told h : Headers)
      → All (λ t. t.1 ≢ "" → P (canonical t.0, t.1)) told
      → All P h
      → All P (set_all canonical to_lower told h)
  unfolding set_all set_header_if_present
  set_all-All P [] h p q = q
  set_all-All P ((name, value) ∷ rest) h (p, ps) q = elim (Bool-cases (value == "")) [
    | inl empty ↦ rw empty (set_all-All P rest h ps q)
    | inr present ↦
        rw present
          (set_all-All P rest _ ps (p (ne_of_eq-false value "" present), del-All P name h q))
  ]

  strip-All :
      (h : Headers)
      → All (λ e. canonical e.0 ≡ e.0) h
      → All
          (λ e. Any (λ x. e ≡ x) h × ¬ SpeaksOfIdentity e.0)
          (strip_anyauth_headers canonical to_lower h)
  unfolding strip_anyauth_headers
  strip-All h c =
      let names = map (λ (e : String × String). e.0) h in
      let sent = strip_names-All (λ e. Any (λ x. e ≡ x) h) names h (All-self h) in
      All-map _ _ (λ e (there, clear). (there, clear (Any-names e h there))) _
        (All-both _ _ _ sent (strip_names-IsClear names h c))

  -- The headers that stay before those of the identity are set.
  kept-IsPlain :
      (id : Identity) (h : Headers)
      → All (λ e. canonical e.0 ≡ e.0) h
      → (let stripped = strip_anyauth_headers canonical to_lower h in
          All (IsPlain id h) (
            if id.actor_type == "agent"
            then del canonical to_lower "Authorization" stripped
            else stripped))
  kept-IsPlain id h c =
      let stripped = strip_anyauth_headers canonical to_lower h in
      let Fine : String × String → Type 0 = λ e. Any (λ x. e ≡ x) h × ¬ SpeaksOfIdentity e.0 in
      elim (Bool-cases (id.actor_type == "agent")) [
        | inl agent ↦ rw agent (
            All-map _ (IsPlain id h)
              (λ e ((there, silent), apart). record {
                sent = there;
                silent = silent;
                unauthorized = λ _. apart;
              })
              _
              (All-both _ _ _ (del-All Fine "Authorization" stripped (strip-All h c))
                (del-named "Authorization" stripped)))
        | inr other ↦ rw other (
            All-map Fine (IsPlain id h)
              (λ e (there, silent). record {
                sent = there;
                silent = silent;
                unauthorized = λ same. absurd (ne_of_eq-false id.actor_type "agent" other same);
              })
              _ (strip-All h c))
      ]

  Any-IsTold :
      (id : Identity) (h : Headers) (t : String × String)
      → Any (λ u. t ≡ u) (identity_headers canonical to_lower id)
      → t.1 ≢ ""
      → IsTold id h (canonical t.0, t.1)
  Any-IsTold id h t here present = inr (
      Any-map (λ (u : String × String). t ≡ u)
        (λ (u : String × String). (canonical t.0 ≡ canonical u.0) × (t.1 ≡ u.1) × (t.1 ≢ ""))
        (λ u same. (
          ap (λ (v : String × String). canonical v.0) same,
          ap (λ (v : String × String). v.1) same,
          present,
        ))
        (identity_headers canonical to_lower id) here)

  -- Of a request with canonical header names, the Director passes on for an identity only headers that
  -- tell of this identity, with its values, which are not empty, and headers that the client sent, none
  -- of which has a lower-case name that begins with x-anyauth- and none of which is Authorization if
  -- the identity is an agent's.
  pub direct-IsTold :
      (id : Identity) (h : Headers)
      → All (λ e. canonical e.0 ≡ e.0) h
      → All (IsTold id h) (direct canonical to_lower id h)
  unfolding direct
  direct-IsTold id h c =
      let told = identity_headers canonical to_lower id in
      set_all-All (IsTold id h) told _
        (All-map (λ (t : String × String). Any (λ u. t ≡ u) told)
          (λ (t : String × String). t.1 ≢ "" → IsTold id h (canonical t.0, t.1)) (Any-IsTold id h)
          told (All-self told))
        (All-map (IsPlain id h) (IsTold id h) (λ e plain. inl plain) _ (kept-IsPlain id h c))
