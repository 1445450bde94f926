-- ===== src/LocalDev/Single.antt =====
-- Over all interleavings: each code is exchanged at most once, and only for whom it was issued
-- (internal/localdev/server.go).
use anyauth.Base.{
  ℕ, ◌+◌, ◌≤◌, String, ◌≡◌, refl, sym, Option, List, [], ◌∷◌, ◌++◌, arith, eq_iff, ◌==◌,
  if◌then◌else◌, All, count, AllValues, count_keys, count_keys-put, count_keys-delete,
  count_keys-append, put-AllValues, delete-AllValues, lookup-AllValues,
}
use anyauth.Delegation.Tokens.{Claims}
use anyauth.LocalDev.State.{App}
use anyauth.LocalDev.Http.{get}
use anyauth.LocalDev.Provider.{new_code}
use anyauth.LocalDev.Codes.{
  System, init, Step, issue, take, refuse, grant, elsewhere, Reach, start, later,
}
use anyauth.LocalDev.Entitled.{
  take_code_found, IsIssued, IsEntitled, validate_authorize-IsIssued, exchange-IsEntitled,
}

-- The places where a code can be.
abbrev pub uses : String → System → ℕ
uses k s = count_keys k s.store.auth_codes + count_keys k s.in_flight + count_keys k s.exchanged

count_keys-middle :
    {V : Type 0} (k j : String) (v : V) (before after : List (String × V))
    → count_keys k (before ++ (j, v) ∷ after)
      ≡ count_keys k (before ++ after) + (if j == k then 1 else 0)
count_keys-middle k j v before after =
    omega (arith, count_keys-append k before ((j, v) ∷ after), count_keys-append k before after)

All-middle :
    {A : Type 0} (P : A → Type 0) (x : A) (before after : List A)
    → All P (before ++ x ∷ after)
    → P x × All P (before ++ after)
All-middle P x [] after h = h
All-middle P x (y ∷ before) after (p, h) =
    let (q, rest) = All-middle P x before after h in (q, (p, rest))

module _ (pkce : String → String) (a : App) where
  -- Codes in the store and in flight were issued, exchanged ones went to a form that may have the
  -- tokens, access tokens are for the local user, and no code is in two places.
  pub record Inv (s : System) : Type 0 where
    pub once : (k : String) → (uses k s ≤ count k s.issued) × (count k s.issued ≤ 1)
    pub stored : AllValues (IsIssued a) s.store.auth_codes
    pub flying : AllValues (λ r. IsIssued a r.code) s.in_flight
    pub honoured :
        AllValues (λ e. IsIssued a e.code × IsEntitled pkce a e.code e.values e.at) s.exchanged
    pub tokens : AllValues (λ t. t.user ≡ a.user) s.store.access_tokens

  init-Inv : Inv init
  init-Inv = record {
    once = λ k. (omega arith, omega arith);
    stored = tt;
    flying = tt;
    honoured = tt;
    tokens = tt;
  }

module _ {V : Type 0} (m : List (String × V)) (before after : List (String × V)) (code : String)
    (v : V) where
  count_keys-removed :
      (k : String)
      → m ≡ before ++ (code, v) ∷ after
      → count_keys k (before ++ after) + (if code == k then 1 else 0) ≡ count_keys k m
  count_keys-removed k e = rw e (sym (count_keys-middle k code v before after))

  removed-AllValues :
      (P : V → Type 0)
      → m ≡ before ++ (code, v) ∷ after
      → AllValues P m
      → P v × AllValues P (before ++ after)
  removed-AllValues P e h =
      All-middle (λ (r : String × V). P r.1) (code, v) before after (rw (sym e) h)

module _ (sign : Claims → Option String) (pkce : String → String) (a : App) where
  Step-Inv : {s t : System} → Step sign pkce a s t → Inv pkce a s → Inv pkce a t
  Step-Inv {s} (issue now values code valid new) inv = record {
    once = λ k. ground (
      arith,
      eq_iff code k,
      inv.once k,
      count_keys-put code k (new_code a now values) s.store.auth_codes,
    );
    stored = put-AllValues _ code _ _ (validate_authorize-IsIssued a now values valid) inv.stored;
    flying = inv.flying;
    honoured = inv.honoured;
    tokens = inv.tokens;
  }
  Step-Inv {s} (take values c found) inv = record {
    once = λ k. rw (take_code_found (get values "code") s.store found) (
        ground (
          arith,
          eq_iff (get values "code") k,
          inv.once k,
          count_keys-delete (get values "code") k s.store.auth_codes (rw found refl),
        ));
    stored =
        rw (take_code_found (get values "code") s.store found)
          (delete-AllValues _ (get values "code") _ inv.stored);
    flying = (lookup-AllValues _ (get values "code") _ inv.stored found, inv.flying);
    honoured = inv.honoured;
    tokens = rw (take_code_found (get values "code") s.store found) inv.tokens;
  }
  Step-Inv {s} (refuse before after code r e) inv = record {
    once = λ k. ground (arith, inv.once k, count_keys-removed s.in_flight before after code r k e);
    stored = inv.stored;
    flying = (removed-AllValues s.in_flight before after code r _ e inv.flying).1;
    honoured = inv.honoured;
    tokens = inv.tokens;
  }
  Step-Inv {s} (grant before after code r now issued_at random id_token t e done) inv = record {
    once = λ k. ground (arith, inv.once k, count_keys-removed s.in_flight before after code r k e);
    stored = inv.stored;
    flying = (removed-AllValues s.in_flight before after code r _ e inv.flying).1;
    honoured = (
      (
        (removed-AllValues s.in_flight before after code r _ e inv.flying).0,
        exchange-IsEntitled sign pkce a now issued_at random r.values r.code done,
      ),
      inv.honoured,
    );
    tokens =
        put-AllValues _ t _ _
          (removed-AllValues s.in_flight before after code r _ e inv.flying).0.user inv.tokens;
  }
  Step-Inv {s} (elsewhere st codes toks) inv = record {
    once = λ k. rw codes (inv.once k);
    stored = rw codes inv.stored;
    flying = inv.flying;
    honoured = inv.honoured;
    tokens = rw toks inv.tokens;
  }

  Reach-Inv : {s : System} → Reach sign pkce a s → Inv pkce a s
  Reach-Inv start = init-Inv pkce a
  Reach-Inv (later r st) = Step-Inv st (Reach-Inv r)

  -- In every state that interleaved requests reach, each code has been exchanged for tokens at most
  -- once, and a code that has been is neither in the store nor held by a request in flight.
  pub Reach-once :
      {s : System}
      → Reach sign pkce a s
      → (k : String)
      → (count_keys k s.exchanged ≤ 1)
        × (count_keys k s.exchanged ≡ 1
            → (count_keys k s.store.auth_codes ≡ 0) × (count_keys k s.in_flight ≡ 0))
  Reach-once {s} r k = let inv = Reach-Inv r in ground (arith, inv.once k)

  -- In every state that interleaved requests reach, each exchange was of a code issued to a registered
  -- client for one of its redirect URIs, under PKCE S256 with a challenge and for the scope openid, and
  -- its form had the client's ID and secret, the same redirect URI and the verifier of the challenge, no
  -- later than the code's expiry; each access token is for the local user.
  pub Reach-IsHonoured :
      {s : System}
      → Reach sign pkce a s
      → AllValues (λ e. IsIssued a e.code × IsEntitled pkce a e.code e.values e.at) s.exchanged
        × AllValues (λ t. t.user ≡ a.user) s.store.access_tokens
  Reach-IsHonoured r = let inv = Reach-Inv r in (inv.honoured, inv.tokens)
