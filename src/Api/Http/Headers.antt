-- ===== src/Api/Http/Headers.antt =====
-- The headers and the address of a request.
use quest_test.Prelude.{
  ◌≡◌, refl, [], ◌∷◌, ◌++◌, Option, none, some, Bool, true, false, if◌then◌else◌, arith, Text,
  chars, or_else, text_eq, text_eq_sound, ◌==◌, Bool-cases, inl, inr, not, ◌∙◌, ◌&&◌, ap, subst,
  text_eq_refl, lower,
}
use quest_test.Api.Http.{
  ApiSettings, HeaderList, Request, build_url, set_header, update_headers, authorize, build_headers,
  is_authorization, drop_authorization, request_headers, strip_slashes,
}

-- The value that the last pair of a name gives, as a header's receiver looks it up.
abbrev pub header : Text → HeaderList → Option Text
header name [] = none
header name ((n, v) ∷ hs) = if text_eq n name then some v else header name hs

if_if :
    (b : Bool) (x y z : Option Text)
    → (if b then x else z) ≡ (if b then x else (if b then y else z))
if_if true x y z = refl
if_if false x y z = refl

or_else-if :
    (o : Option Text) (b : Bool) (v : Text) (y : Option Text)
    → or_else o (if b then some v else y) ≡ or_else (or_else o (if b then some v else none)) y
or_else-if (some s) b v y = refl
or_else-if none true v y = refl
or_else-if none false v y = refl

set_header-header :
    (n v m : Text) (hs : HeaderList)
    → header m (set_header n v hs) ≡ (if text_eq n m then some v else header m hs)
unfolding set_header
set_header-header n v m [] = refl
set_header-header n v m ((k, u) ∷ hs) = elim (Bool-cases (text_eq k n)) [
  | inl same ↦
      let e = text_eq_sound k n same in
      rw same (rw (← e) (if_if (text_eq k m) (some v) (some u) (header m hs)))
  | inr other ↦
      rw (other, set_header-header n v m hs)
        (elim (Bool-cases (text_eq n m)) [
          | inl here ↦
              let e = text_eq_sound n m here in
              let apart : text_eq k m ≡ false = rw e at other in rw (here, apart)
          | inr later ↦ rw later
        ])
]

-- The value that the caller's pairs give a name: a later pair replaces an earlier one.
abbrev pub last_header : Text → HeaderList → Option Text
last_header name [] = none
last_header name ((n, v) ∷ hs) =
    or_else (last_header name hs) (if text_eq n name then some v else none)

update_headers-header :
    (m : Text) (hs result : HeaderList)
    → header m (update_headers result hs) ≡ or_else (last_header m hs) (header m result)
unfolding update_headers
update_headers-header m [] result = refl
update_headers-header m ((n, v) ∷ hs) result =
    update_headers-header m hs (set_header n v result)
    ∙ rw (set_header-header n v m result)
        (or_else-if (last_header m hs) (text_eq n m) v (header m result))

-- The value that a header has where the caller gives none.
abbrev pub default_header : (token : Option Text) → Text → Option Text
default_header (some (c ∷ token)) name =
    if text_eq (chars "Authorization") name
    then some (chars "Bearer " ++ (c ∷ token))
    else if text_eq (chars "Accept") name
    then some (chars "application/json")
    else none
default_header token name =
    if text_eq (chars "Accept") name then some (chars "application/json") else none

authorize-header :
    (token : Option Text) (name : Text)
    → header name (authorize token ((chars "Accept", chars "application/json") ∷ []))
      ≡ default_header token name
unfolding authorize
authorize-header none name = refl
authorize-header (some []) name = refl
authorize-header (some (c ∷ token)) name =
    set_header-header (chars "Authorization") (chars "Bearer " ++ (c ∷ token)) name
      ((chars "Accept", chars "application/json") ∷ [])

drop_authorization-header :
    (name : Text) (hs : HeaderList)
    → header name (drop_authorization hs) ≡ (if is_authorization name then none else header name hs)
unfolding drop_authorization
drop_authorization-header name [] = ground arith
drop_authorization-header name ((n, v) ∷ hs) = elim (Bool-cases (text_eq n name)) [
  | inl same ↦
      subst
        (λ m.
          header m (drop_authorization ((n, v) ∷ hs))
          ≡ (if is_authorization m then none else header m ((n, v) ∷ hs)))
        (text_eq_sound n name same)
        (elim (Bool-cases (is_authorization n)) [
          | inl yes' ↦ rw yes' (drop_authorization-header n hs ∙ rw yes')
          | inr no' ↦ rw (no', text_eq_refl n)
        ])
  | inr other ↦ elim (Bool-cases (is_authorization n)) [
    | inl yes' ↦ rw (yes', other) (drop_authorization-header name hs)
    | inr no' ↦ rw (no', other) (drop_authorization-header name hs)
  ]
]

-- Under every name a request sends the value that the caller's pairs give it last, and where they
-- give none its default: `Bearer ` and the token for `Authorization`, if a token is set, JSON for
-- `Accept`, nothing for any other name. Without authentication it sends nothing under a name that is
-- `authorization` in any mix of cases.
pub request_headers-header :
    {B : Type 0} (settings : ApiSettings) (request : Request B) (name : Text)
    → header name (request_headers settings request) ≡ (
        if not request.include_authentication && text_eq (lower name) (chars "authorization")
        then none
        else or_else (last_header name request.headers) (default_header settings.auth_token name))
unfolding request_headers build_headers
request_headers-header settings request name =
    let sent : header name (build_headers settings.auth_token request.headers)
        ≡ or_else (last_header name request.headers) (default_header settings.auth_token name) =
      update_headers-header name request.headers _
      ∙ ap (or_else (last_header name request.headers))
          (authorize-header settings.auth_token name) in
    elim (Bool-cases request.include_authentication) [
      | inl with_token ↦ rw with_token sent
      | inr without ↦ rw without (
          drop_authorization-header name (build_headers settings.auth_token request.headers)
          ∙ ap (λ x. if is_authorization name then none else x) sent)
    ]

-- The text begins with no slash.
abbrev NoSlash : Text → Type 0
NoSlash [] = Unit
NoSlash (c ∷ s) = (c == b'/') ≡ false

strip_slashes-NoSlash : (p : Text) → NoSlash (strip_slashes p)
strip_slashes-NoSlash [] = tt
strip_slashes-NoSlash (c ∷ p) = elim (Bool-cases (c == b'/')) [
  | inl slash ↦ rw slash (strip_slashes-NoSlash p)
  | inr other ↦ rw other other
]

-- An address is the base, one slash, and a path that does not begin with a further slash, however
-- many slashes the caller's path begins with.
build_url-NoSlash :
    (base path url : Text)
    → build_url base path ≡ some url
    → (rest : Text) × (url ≡ base ++ (b'/' ∷ rest)) × NoSlash rest
unfolding build_url
build_url-NoSlash [] path url h = cc
build_url-NoSlash (c ∷ base) path url h =
    (strip_slashes path, ground arith, strip_slashes-NoSlash path)
