-- ===== src/NetscapeCookies/Fields.antt =====
-- server/pkg/netscapecookies/cookie.go: what a reader of the line sees.
use moblog_cloud.Prelude.{
  ℕ, zero, suc, ◌+◌, ◌-◌, ◌/◌, ◌%◌, GoString, codes, Bool, true, false, List, [], ◌∷◌, ◌++◌, All,
  All-append, ok, nat_eq, ltb, ◌==◌, eq_iff, if◌then◌else◌, ◌≡◌, ◌≢◌, ◌⊎◌, refl, ap, ◌∙◌, arith,
  Bool-cases, inl, inr, IsErr, ok-ne-err,
}
use moblog_cloud.Http.{Cookie}
use moblog_cloud.IdGenerator.{digits, format_uint}
use moblog_cloud.NetscapeCookies.{bool_str, unix_text, path_of, write_cookie}

abbrev starting : ℕ → List GoString → List GoString
starting c [] = (c ∷ []) ∷ []
starting c (field ∷ rest) = (c ∷ field) ∷ rest

-- The fields of a line, between its tabs; the last one goes to the end of the line.
unfoldable pub fields : GoString → List GoString
fields [] = [] ∷ []
fields (c ∷ s) =
    let more = fields s in
    if nat_eq c 9 then [] ∷ more else if nat_eq c 10 then [] ∷ [] else starting c more

-- Neither a tab nor the end of a line.
abbrev pub IsPlain : GoString → Type 0
IsPlain s = All (λ c. (nat_eq c 9 ≡ false) × (nat_eq c 10 ≡ false)) s

abbrev PlainChar : ℕ → Type 0
PlainChar c = (nat_eq c 9 ≡ false) × (nat_eq c 10 ≡ false)

fields-tab : (s rest : GoString) → IsPlain s → fields (s ++ 9 ∷ rest) ≡ s ∷ fields rest
unfolding fields
fields-tab [] rest p = refl
fields-tab (c ∷ s) rest ((t, n), p) = rw (t, n, fields-tab s rest p) refl

fields-newline : (s : GoString) → IsPlain s → fields (s ++ 10 ∷ []) ≡ s ∷ []
unfolding fields
fields-newline [] p = refl
fields-newline (c ∷ s) ((t, n), p) = rw (t, n, fields-newline s p) refl

digits-IsPlain : (fuel n : ℕ) → IsPlain (digits fuel n)
unfolding digits
digits-IsPlain zero n = tt
digits-IsPlain (suc fuel) n = elim (Bool-cases (ltb n 10)) [
  | inl small ↦ rw small ((ground arith, ground arith), tt)
  | inr large ↦ rw large (
      All-append PlainChar (digits fuel (n / 10)) ((b'0' + n % 10) ∷ [])
        (digits-IsPlain fuel (n / 10)) ((ground arith, ground arith), tt))
]

unix_text-IsPlain : (time : ℕ) → IsPlain (unix_text time)
unfolding unix_text format_uint
unix_text-IsPlain time = elim (Bool-cases (ltb (time / 1000000000) 62135596800)) [
  | inl before ↦ rw before ((refl, refl), digits-IsPlain 20 (62135596800 - time / 1000000000))
  | inr after ↦ rw after (digits-IsPlain 20 (time / 1000000000 - 62135596800))
]

path_of-IsPlain : (cookie : Cookie) → IsPlain cookie.path → IsPlain (path_of cookie)
path_of-IsPlain cookie p = elim (Bool-cases (cookie.path == [])) [
  | inl empty ↦ rw empty ((refl, refl), tt)
  | inr given ↦ rw given p
]

bool_str-IsPlain : (b : Bool) → IsPlain (bool_str b)
bool_str-IsPlain true = ((refl, refl), ((refl, refl), ((refl, refl), ((refl, refl), tt))))
bool_str-IsPlain false =
    ((refl, refl), ((refl, refl), ((refl, refl), ((refl, refl), ((refl, refl), tt)))))

-- A cookie with a domain, an expiry time, a name and a value, none of whose texts holds a tab or a
-- newline, is written as one line, which reads back as its seven fields.
pub fields-write_cookie :
    (cookie : Cookie)
    → cookie.domain ≢ []
    → cookie.expires ≢ 0
    → cookie.name ≢ []
    → cookie.value ≢ []
    → IsPlain cookie.domain
    → IsPlain cookie.path
    → IsPlain cookie.name
    → IsPlain cookie.value
    → (line : GoString) × (write_cookie cookie ≡ ok line)
      × (fields line
          ≡ cookie.domain
            ∷ codes "FALSE"
            ∷ path_of cookie
            ∷ bool_str cookie.secure
            ∷ unix_text cookie.expires
            ∷ cookie.name
            ∷ cookie.value
            ∷ [])
unfolding write_cookie
fields-write_cookie cookie d e n v pd pp pn pv = (
  _,
  rw
      (
        differs cookie.domain d,
        expires_differ cookie.expires e,
        differs cookie.name n,
        differs cookie.value v,
      )
      refl,
  fields-tab cookie.domain _ pd
      ∙ ap (λ l. cookie.domain ∷ l)
          (fields-tab (bool_str false) _ (bool_str-IsPlain false)
            ∙ ap (λ l. codes "FALSE" ∷ l)
                (fields-tab (path_of cookie) _ (path_of-IsPlain cookie pp)
                  ∙ ap (λ l. path_of cookie ∷ l)
                      (fields-tab (bool_str cookie.secure) _ (bool_str-IsPlain cookie.secure)
                        ∙ ap (λ l. bool_str cookie.secure ∷ l)
                            (fields-tab (unix_text cookie.expires) _
                                (unix_text-IsPlain cookie.expires)
                              ∙ ap (λ l. unix_text cookie.expires ∷ l)
                                  (fields-tab cookie.name _ pn
                                    ∙ ap (λ l. cookie.name ∷ l)
                                        (fields-newline cookie.value pv)))))),
)
  where
    differs : (s : GoString) → s ≢ [] → (s == []) ≡ false
    differs s h = ground (arith, eq_iff s [])

    expires_differ : (n : ℕ) → n ≢ 0 → nat_eq n 0 ≡ false
    expires_differ n h = ground arith

-- A cookie is refused only when its domain, its expiry time, its name or its value is missing.
pub write_cookie-IsErr :
    (cookie : Cookie)
    → IsErr (write_cookie cookie)
    → (cookie.domain ≡ []) ⊎ (cookie.expires ≡ 0) ⊎ (cookie.name ≡ []) ⊎ (cookie.value ≡ [])
unfolding write_cookie
write_cookie-IsErr cookie (e, h) = elim (Bool-cases (cookie.domain == [])) [
  | inl no_d ↦ inl ((eq_iff cookie.domain []).0 no_d)
  | inr d ↦ elim (Bool-cases (nat_eq cookie.expires 0)) [
    | inl no_e ↦ inr (inl (ground arith))
    | inr x ↦ elim (Bool-cases (cookie.name == [])) [
      | inl no_n ↦ inr (inr (inl ((eq_iff cookie.name []).0 no_n)))
      | inr n ↦ elim (Bool-cases (cookie.value == [])) [
        | inl no_v ↦ inr (inr (inr ((eq_iff cookie.value []).0 no_v)))
        | inr v ↦ absurd (ok-ne-err (rw (d, x, n, v) at h))
      ]
    ]
  ]
]
