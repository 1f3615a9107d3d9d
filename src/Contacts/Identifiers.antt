-- ===== src/Contacts/Identifiers.antt =====
-- The identifier of a contact and its host name
-- (src/libtego/source/core/ContactIDValidator.cpp).
use ricochet_irc.Prelude.{
  ℕ, ◌-◌, ◌≡◌, refl, ap, sym, ◌∙◌, Bool, true, ◌&&◌, ◌||◌, [], ◌∷◌, ◌++◌, Option, none, some,
  is_some, if◌then◌else◌, leb, ◌==◌, length, take, drop, same, codes, arith, ◌⊎◌, inl, inr,
  length-append, take-append, drop-append, if_cases,
}
use ricochet_irc.Connection.State.{Text}
use ricochet_irc.Connection.Auth.{onion}
use ricochet_irc.Connector.Status.{ends_with}

abbrev scheme : Text
scheme = codes "ricochet:"

-- The class `[a-z2-7]`.
abbrev is_base32 : ℕ → Bool
is_base32 x = (leb b'a' x && leb x b'z') || (leb b'2' x && leb x b'7')

unfoldable pub are_base32 : Text → Bool
are_base32 [] = true
are_base32 (x ∷ xs) = is_base32 x && are_base32 xs

abbrev pub is_service_id : Text → Bool
is_service_id s = (length s == 56) && are_base32 s

-- The regular expression matches at the start of this text.
abbrev matches_here : Text → Bool
matches_here text = same (take 9 text) scheme && is_service_id (take 56 (drop 9 text))

-- What the group of the regular expression captures in the first match, which may begin anywhere.
unfoldable pub captured : Text → Option Text
captured [] = none
captured (x ∷ xs) =
    let rest = captured xs in
    if matches_here (x ∷ xs) then some (take 56 (drop 9 (x ∷ xs))) else rest

abbrev pub is_valid_id : Text → Bool
is_valid_id text = is_some (captured text)

unfoldable pub hostname_from_id : Text → Text
hostname_from_id id = elim (captured id) [ none ↦ [] | some s ↦ s ++ onion ]

-- `QString::toLower` is a parameter.
unfoldable pub id_from_hostname : (Text → Text) → Text → Text
id_from_hostname to_lower hostname =
    let re = to_lower hostname in
    let chopped = if ends_with onion re then take (length re - length onion) re else re in
    let id = scheme ++ chopped in if is_valid_id id then id else []

take_all : (s : Text) → take (length s) s ≡ s
take_all [] = refl
take_all (x ∷ xs) = ap (◌∷◌ x) (take_all xs)

has_length : (n m : ℕ) (b : Bool) → ((n == m) && b) ≡ true → n ≡ m
has_length n m b e = ground arith

captured-scheme : (s : Text) → is_service_id s ≡ true → captured (scheme ++ s) ≡ some s
unfolding captured
captured-scheme s e =
    let n : length s ≡ 56 = has_length (length s) 56 (are_base32 s) e in
    let whole : take 56 s ≡ s = ap (λ k. take k s) (sym n) ∙ take_all s in rw whole (rw e refl)

onion-chopped :
    (s : Text)
    → (if ends_with onion (s ++ onion)
        then take (length (s ++ onion) - length onion) (s ++ onion)
        else (s ++ onion))
      ≡ s
onion-chopped s =
    let n : length (s ++ onion) - 6 ≡ length s = omega (arith, length-append s onion) in
    let m : leb 6 (length (s ++ onion)) ≡ true = ground (arith, length-append s onion) in
    rw (n, m, drop-append s onion) (take-append s onion)

hostname-scheme : (s : Text) → is_service_id s ≡ true → hostname_from_id (scheme ++ s) ≡ s ++ onion
unfolding hostname_from_id
hostname-scheme s e =
    ap (λ o. elim o as (λ _. Text) [ none ↦ [] | some t ↦ t ++ onion ]) (captured-scheme s e)

and_right : (a b : Bool) → (a && b) ≡ true → b ≡ true
and_right a b e = ground arith

captured_service : (text s : Text) → captured text ≡ some s → is_service_id s ≡ true
unfolding captured
captured_service [] s e = absurd (cc)
captured_service (x ∷ xs) s e =
    if_cases (λ (o : Option Text). o ≡ some s → is_service_id s ≡ true) (matches_here (x ∷ xs))
      (some (take 56 (drop 9 (x ∷ xs)))) (captured xs)
      (λ m h.
        let same_text : take 56 (drop 9 (x ∷ xs)) ≡ s = cc in
        rw (sym same_text)
          (and_right (same (take 9 (x ∷ xs)) scheme) (is_service_id (take 56 (drop 9 (x ∷ xs)))) m))
      (λ _ h. captured_service xs s h) e

-- For 56 characters of the alphabet of service names, and a conversion to lower case that leaves
-- their host name: the identifier of the host name is made, and its host name is that one again.
pub hostname_from_id-id_from_hostname :
    (to_lower : Text → Text) (s : Text)
    → is_service_id s ≡ true
    → to_lower (s ++ onion) ≡ s ++ onion
    → (id_from_hostname to_lower (s ++ onion) ≡ scheme ++ s)
      × (hostname_from_id (id_from_hostname to_lower (s ++ onion)) ≡ s ++ onion)
unfolding id_from_hostname hostname_from_id
hostname_from_id-id_from_hostname to_lower s e lower =
    rw (lower, onion-chopped s, captured-scheme s e) (refl, hostname-scheme s e)

-- Whatever the text is, no host name is made of it, or one of 56 characters of the alphabet of
-- service names and the ending of onion services.
pub hostname_from_id-cases :
    (text : Text)
    → (hostname_from_id text ≡ [])
      ⊎ ((s : Text) × (is_service_id s ≡ true) × (hostname_from_id text ≡ s ++ onion))
unfolding hostname_from_id
hostname_from_id-cases text = by_match (captured text) (captured_service text)
  where
    by_match :
        (o : Option Text)
        → ((s : Text) → o ≡ some s → is_service_id s ≡ true)
        → ((elim o as (λ _. Text) [ none ↦ [] | some s ↦ s ++ onion ]) ≡ [])
          ⊎ ((s : Text) × (is_service_id s ≡ true)
              × ((elim o as (λ _. Text) [ none ↦ [] | some t ↦ t ++ onion ]) ≡ s ++ onion))
    by_match none f = inl refl
    by_match (some s) f = inr (s, f s refl, refl)
