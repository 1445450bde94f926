-- ===== src/AuditLog/Reading.antt =====
-- What Load of internal/auditlog/auditlog.go reads after Append.
use Prim.Native.String
use Prim.Native.String.append
use mathlib.Core.List.{append-nil, append_assoc}
use anyauth.Base.{
  ℕ, zero, suc, ◌+◌, ◌-◌, ◌<◌, ◌≤◌, String, ◌≡◌, refl, sym, ap, ◌⊎◌, inl, inr, ◌&&◌, Option, none,
  some, List, [], ◌∷◌, ◌++◌, ◌==◌, arith, if◌then◌else◌, ltb, eqb, Bool-cases, Option-cases, length,
  trim_space, is_visible, is_space, trim_space-append, ok, err, is_ok, Result-cases, ◌>>=◌,
}
use anyauth.AuditLog.Events.{Event, line_too_long, validate, normalize, normalize_idem}
use anyauth.AuditLog.Log.{
  Line, entry, Content, absent, unreadable, lines, Disk, written, prepare, append, max_line,
  identify, stamp, read_line, read_lines, read, drop, tail, load,
}

-- The last events of a list, as many as a limit says; no limit for zero.
abbrev pub IsLast : ℕ → List Event → List Event → Type 0
IsLast limit es ys =
    (front : List Event) × (es ≡ front ++ ys)
    × ((limit ≡ 0) ⊎ (length es ≤ limit) → front ≡ [])
    × (0 < limit → limit ≤ length es → length ys ≡ limit)

drop-IsLast :
    (n : ℕ) (es : List Event)
    → n ≤ length es
    → (front : List Event) × (es ≡ front ++ drop n es) × (length (drop n es) + n ≡ length es)
unfolding drop
drop-IsLast zero es h = ([], refl, omega arith)
drop-IsLast (suc n) [] h = absurd (omega arith)
drop-IsLast (suc n) (e ∷ es) h =
    let (front, same, long) = drop-IsLast n es (omega arith) in
    (e ∷ front, ap (λ (xs : List Event). e ∷ xs) same, omega (arith, long))

pub tail-IsLast : (limit : ℕ) (es : List Event) → IsLast limit es (tail limit es)
unfolding tail
tail-IsLast limit es = elim (Bool-cases (ltb 0 limit && ltb limit (length es))) [
  | inr whole ↦ rw whole ([], refl, (λ h. refl), (λ h k. ground arith))
  | inl cut ↦
      let (front, same, long) = drop-IsLast (length es - limit) es (omega arith) in
      rw cut (front, same, (λ h. absurd (ground arith)), (λ h k. ground (arith, long)))
]

module _ (size : Event → ℕ) where
  read_lines-append :
      (ls ks : List Line)
      → read_lines size (ls ++ ks)
        ≡ (read_lines size ls >>= λ es. read_lines size ks >>= λ rest. ok (es ++ rest))
  unfolding read_lines
  read_lines-append [] ks = elim (Result-cases (read_lines size ks)) [
    | inl (es, fine) ↦ rw fine refl
    | inr (inl gone) ↦ rw gone refl
    | inr (inr (e, bad)) ↦ rw bad refl
  ]
  read_lines-append (l ∷ ls) ks = elim (Result-cases (read_line size l)) [
    | inr (inl gone) ↦ rw gone refl
    | inr (inr (e, bad)) ↦ rw bad refl
    | inl (es, fine) ↦
        rw (fine, read_lines-append ls ks)
          (elim (Result-cases (read_lines size ls)) [
            | inr (inl gone) ↦ rw gone refl
            | inr (inr (e, bad)) ↦ rw bad refl
            | inl (fs, fine') ↦ rw fine' (elim (Result-cases (read_lines size ks)) [
              | inr (inl gone) ↦ rw gone refl
              | inr (inr (e, bad)) ↦ rw bad refl
              | inl (gs, fine'') ↦ rw fine'' (ap ok (sym (append_assoc es fs gs)))
            ])
          ])
  ]

  read_one : (e : Event) → read_lines size (entry e ∷ []) ≡ read_line size (entry e)
  unfolding read_lines
  read_one e = elim (Result-cases (read_line size (entry e))) [
    | inr (inl gone) ↦ rw gone refl
    | inr (inr (x, bad)) ↦ rw bad refl
    | inl (es, fine) ↦ rw fine (ap ok (append-nil es))
  ]

  -- A line that is written is read after those of before.
  read-written :
      (c : Content) (e : Event)
      → read size (written (entry e) c)
        ≡ (read size c >>= λ es. read_line size (entry e) >>= λ rest. ok (es ++ rest))
  unfolding read
  read-written absent e = rw (read_one e) (elim (Result-cases (read_line size (entry e))) [
    | inr (inl gone) ↦ rw gone refl
    | inr (inr (x, bad)) ↦ rw bad refl
    | inl (es, fine) ↦ rw fine refl
  ])
  read-written unreadable e = refl
  read-written (lines ls) e = rw (read_lines-append ls (entry e ∷ []), read_one e) refl

-- A text that the program makes by putting "evt_" before a trimmed one is trimmed.
random_id_trimmed :
    (v : String) → trim_space v ≡ v → trim_space (String.◌++◌ "evt_" v) ≡ String.◌++◌ "evt_" v
random_id_trimmed v h = trim_space-append "evt_" v (unfold is_visible is_space in refl) h

-- The random token that an event is given holds no space.
abbrev pub IsClean : Option String → Type 0
IsClean none = Unit
IsClean (some v) = trim_space v ≡ v

identify-normal :
    (token : Option String) (e e' : Event)
    → IsClean token
    → normalize e ≡ e
    → identify token e ≡ ok e'
    → normalize e' ≡ e'
unfolding identify normalize
identify-normal none e e' t n h = elim (Bool-cases (e.id == "")) [
  | inl empty ↦ absurd (ground arith)
  | inr given ↦ let same : e' ≡ e = ground arith in rw same n
]
identify-normal (some v) e e' t n h = elim (Bool-cases (e.id == "")) [
  | inl empty ↦
      let made : e' ≡ record e { id = String.◌++◌ "evt_" v } = ground arith in
      rw made (λ i. record (n i) { id = random_id_trimmed v t i })
  | inr given ↦ let same : e' ≡ e = ground arith in rw same n
]

stamp-normal : (clock : ℕ) (e : Event) → normalize e ≡ e → normalize (stamp clock e) ≡ stamp clock e
unfolding stamp normalize
stamp-normal clock e n = elim (Bool-cases (eqb e.time 0)) [
  | inl new ↦ rw new (ap (λ (x : Event). record x { time = clock }) n)
  | inr old ↦ rw old n
]

-- What Append writes is valid and in normal form.
prepare_lem :
    (clock : ℕ) (token : Option String) (event e : Event)
    → IsClean token
    → prepare clock token event ≡ ok e
    → (validate e ≡ none) × (normalize e ≡ e)
unfolding prepare
prepare_lem clock token event e t h = elim (Result-cases (identify token (normalize event))) [
  | inr other ↦ absurd (ground arith)
  | inl (e₁, named) ↦ elim (Option-cases (validate (stamp clock e₁))) [
    | inr (x, bad) ↦ absurd (ground arith)
    | inl fine ↦
        let same : e ≡ stamp clock e₁ = ground arith in
        rw same (
          fine,
          stamp-normal clock e₁
              (identify-normal token (normalize event) e₁ t (normalize_idem event) named),
        )
  ]
]

append_lem :
    (clock : ℕ) (token : Option String) (event e : Event) (d d' : Disk)
    → append clock token event d ≡ (ok e, d')
    → (prepare clock token event ≡ ok e) × (d'.content ≡ written (entry e) d.content)
unfolding append
append_lem clock token event e d d' h = elim (Result-cases (prepare clock token event)) [
  | inr other ↦ absurd (ground arith)
  | inl (e₁, made) ↦ elim (Bool-cases d.writable) [
    | inl fine ↦ (ground arith, ground arith)
    | inr bad ↦ absurd (ground arith)
  ]
]

module _ (size : Event → ℕ) where
  read_line-entry :
      (e : Event)
      → validate e ≡ none
      → normalize e ≡ e
      → read_line size (entry e)
        ≡ (if ltb (size e) max_line then ok (e ∷ []) else err line_too_long)
  unfolding read_line
  read_line-entry e v n = rw (n, v) (ground arith)

  -- After an Append that succeeds the log can be loaded exactly if it could be before and the event,
  -- as it was returned, is encoded in less than 64 KiB. If so, all events of before and then this one
  -- are loaded, of which Load returns the last ones up to the limit, or all for the limit 0. This is
  -- for a random token with no space at its ends.
  pub append-load :
      (clock : ℕ) (token : Option String) (event e : Event) (d d' : Disk) (limit : ℕ)
      → IsClean token
      → append clock token event d ≡ (ok e, d')
      → (is_ok (load size limit d'.content)
          ≡ (is_ok (load size 0 d.content) && ltb (size e) max_line))
        × ((es : List Event)
            → load size 0 d.content ≡ ok es
            → size e < max_line
            → (ys : List Event) × (load size limit d'.content ≡ ok ys)
              × IsLast limit (es ++ e ∷ []) ys)
  unfolding load
  append-load clock token event e d d' limit t h =
      let (made, put) = append_lem clock token event e d d' h in
      let (v, n) = prepare_lem clock token event e t made in
      let line = read_line-entry e v n in
      elim (Result-cases (read size d.content)) [
        | inr (inl gone) ↦ (
          rw (put, read-written size d.content e, gone) refl,
          λ es was fits. absurd (ground (arith, rw gone at was)),
        )
        | inr (inr (x, bad)) ↦ (
          rw (put, read-written size d.content e, bad) refl,
          λ es was fits. absurd (ground (arith, rw bad at was)),
        )
        | inl (fs, fine) ↦ elim (Bool-cases (ltb (size e) max_line)) [
          | inr long ↦ (
            rw (put, read-written size d.content e, fine, line, long) refl,
            λ es was fits. absurd (ground arith),
          )
          | inl short ↦ (
            rw (put, read-written size d.content e, fine, line, short) refl,
            λ es was fits. (
              tail limit (es ++ e ∷ []),
              (let same : fs ≡ es = unfold tail in (ground (arith, rw fine at was)) in
                  rw (put, read-written size d.content e, fine, line, short, same) refl),
              tail-IsLast limit (es ++ e ∷ []),
            ),
          )
        ]
      ]
