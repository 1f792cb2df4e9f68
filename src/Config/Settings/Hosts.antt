-- ===== src/Config/Settings/Hosts.antt =====
-- What a host list that is accepted holds.
use quest_test.Prelude.{
  ◌≡◌, ◌≢◌, refl, ap, ◌∙◌, subst, Bool, true, false, not, or_false, List, [], ◌∷◌, ◌++◌, All,
  All-append, Text, strip, lower, text_eq, text_eq_refl, text_eq_sound, Bool-cases, inl, inr,
  one_of, if_ind,
}
use quest_test.Effect.{returned}
use quest_test.Json.{Value, null, bool, int, float, str, arr, obj}
use quest_test.Config.Settings.{
  Loaded, without_dots, is_bare, split_commas, strings_of, values_of, add_host, normalize_hosts,
  host_list,
}

-- No host twice, read from the front.
unfoldable pub NoRepeat : List Text → Type 0
NoRepeat [] = Unit
NoRepeat (h ∷ hs) = (one_of hs h ≡ false) × NoRepeat hs

-- A host that is not empty and holds no scheme, path, port or wildcard.
pub record IsHost (host : Text) : Type 0 where
  pub some_name : host ≢ []
  pub bare : is_bare host ≡ true

pub record Hosts (hosts : List Text) : Type 0 where
  pub each : All IsHost hosts
  pub distinct : NoRepeat hosts

apart : (c : Bool) → c ≡ true → c ≡ false → ⊥
apart true h e = cc
apart false h e = cc

text_eq_swap : (s t : Text) → text_eq s t ≡ false → text_eq t s ≡ false
text_eq_swap s t h = elim (Bool-cases (text_eq t s)) [
  | inl e ↦ absurd (apart (text_eq s t) (ap (text_eq s) (text_eq_sound t s e) ∙ text_eq_refl s) h)
  | inr e ↦ e
]

one_of-append :
    (hs : List Text) (h host : Text)
    → one_of hs h ≡ false
    → text_eq h host ≡ false
    → one_of (hs ++ (host ∷ [])) h ≡ false
one_of-append [] h host a b = rw b refl
one_of-append (k ∷ hs) h host a b =
    let (first, later) = or_false (text_eq h k) (one_of hs h) a in
    rw (first, one_of-append hs h host later b) refl

NoRepeat-append :
    (hs : List Text) (host : Text)
    → NoRepeat hs
    → one_of hs host ≡ false
    → NoRepeat (hs ++ (host ∷ []))
unfolding NoRepeat
NoRepeat-append [] host distinct new = (refl, tt)
NoRepeat-append (h ∷ hs) host (fresh, distinct) new =
    let (first, later) = or_false (text_eq host h) (one_of hs host) new in
    (
      one_of-append hs h host fresh (text_eq_swap host h first),
      NoRepeat-append hs host distinct later,
    )

-- What the loop promises of the hosts that it returns.
abbrev Keeps : Loaded (List Text) → Type 0
Keeps r = (hosts : List Text) → r ≡ returned hosts → Hosts hosts

same_hosts : (a b : List Text) → ◌≡◌ {A = Loaded (List Text)} (returned a) (returned b) → a ≡ b
same_hosts a b h = cc

not-false : (b : Bool) → not b ≡ false → b ≡ true
not-false true h = refl
not-false false h = cc

text_eq-nil : (host : Text) → text_eq host [] ≡ false → host ≢ []
text_eq-nil host h e = apart (text_eq host []) (ap (λ t. text_eq t []) e) h

add_host-Keeps :
    (host : Text) (hosts : List Text) (rest : List Text → Loaded (List Text))
    → Hosts hosts
    → ((kept : List Text) → Hosts kept → Keeps (rest kept))
    → Keeps (add_host host hosts rest)
unfolding add_host
add_host-Keeps host hosts rest good keeps =
    if_ind Keeps (text_eq host []) (λ _. keeps hosts good)
      (λ named.
        if_ind Keeps (not (is_bare host)) (λ _. λ kept h. cc)
          (λ bare.
            if_ind Keeps (one_of hosts host) (λ _. keeps hosts good)
              (λ new. keeps (hosts ++ (host ∷ [])) (record {
                each =
                    All-append IsHost hosts (host ∷ []) good.each
                      (record { some_name = text_eq-nil host named; bare = not-false _ bare }, tt);
                distinct = NoRepeat-append hosts host good.distinct new;
              }))))

normalize_hosts-Keeps :
    (vs : List Value) (hosts : List Text) → Hosts hosts → Keeps (normalize_hosts vs hosts)
unfolding normalize_hosts
normalize_hosts-Keeps [] hosts good kept h = subst Hosts (same_hosts hosts kept h) good
normalize_hosts-Keeps (str s ∷ vs) hosts good kept h =
    add_host-Keeps (without_dots (lower (strip s))) hosts (λ kept. normalize_hosts vs kept) good
      (λ kept ok. normalize_hosts-Keeps vs kept ok) kept h
normalize_hosts-Keeps (null ∷ vs) hosts good kept h = cc
normalize_hosts-Keeps (bool b ∷ vs) hosts good kept h = cc
normalize_hosts-Keeps (int n ∷ vs) hosts good kept h = cc
normalize_hosts-Keeps (float t ∷ vs) hosts good kept h = cc
normalize_hosts-Keeps (arr a ∷ vs) hosts good kept h = cc
normalize_hosts-Keeps (obj f ∷ vs) hosts good kept h = cc

nil-Hosts : Hosts []
unfolding NoRepeat
nil-Hosts = record { each = tt; distinct = tt }

-- A host list that is accepted, of a list, a comma-separated text or nothing, holds no host twice,
-- and each is a name that is not empty and has no scheme, path, port, bracket or wildcard in it.
pub host_list-Hosts : (v : Value) (hosts : List Text) → host_list v ≡ returned hosts → Hosts hosts
unfolding host_list
host_list-Hosts null hosts h = subst Hosts (same_hosts [] hosts h) nil-Hosts
host_list-Hosts (str s) hosts h =
    normalize_hosts-Keeps (strings_of (split_commas s)) [] nil-Hosts hosts h
host_list-Hosts (arr items) hosts h = normalize_hosts-Keeps (values_of items) [] nil-Hosts hosts h
host_list-Hosts (bool b) hosts h = cc
host_list-Hosts (int n) hosts h = cc
host_list-Hosts (float t) hosts h = cc
host_list-Hosts (obj f) hosts h = cc
