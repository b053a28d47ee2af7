-- ===== src/Header/Names.antt =====
-- The name of an account, which three pages write each in their own way.
use safe_dock.Common.{
  ◌≡◌, refl, ap, [], ◌∷◌, ◌++◌, not, ◌&&◌, some, Text, codes, is_empty, take, ◌≢◌, if◌then◌else◌,
}
use safe_dock.Http.{or_text}
use safe_dock.Trim.{trim}
use safe_dock.Account.{Account, Effect, post_profile, profile_pressed, step}
use safe_dock.Account.Card.{monogram, card}
use safe_dock.Users.{name_of}
use safe_dock.Header.{Person, join_words, full_name, person_label, initials, person_initials}

if_blank : (t u : Text) → (if is_empty t then u else t) ≡ or_text t u
if_blank [] u = refl
if_blank (c ∷ t) u = refl

name_of-full_name :
    (first last username : Text)
    → name_of first last username ≡ or_text (full_name first last) username
unfolding name_of full_name join_words trim
name_of-full_name [] [] username = refl
name_of-full_name [] (d ∷ last) username = if_blank (trim (d ∷ last)) username
name_of-full_name (c ∷ first) [] username = if_blank (trim (c ∷ first)) username
name_of-full_name (c ∷ first) (d ∷ last) username =
    if_blank (trim (c ∷ first ++ (b' ' ∷ d ∷ last))) username

initials_lem :
    (to_upper : Text → Text) (a b username : Text)
    → initials to_upper a b username ≡ (
        let base = or_text (or_text a b) username in
        if not (is_empty a) && not (is_empty b)
        then to_upper (take 1 a ++ take 1 b)
        else (if is_empty base then codes "?" else to_upper (take 2 base)))
unfolding initials
initials_lem to_upper [] [] [] = refl
initials_lem to_upper [] [] (u ∷ username) = refl
initials_lem to_upper [] (d ∷ b) username = refl
initials_lem to_upper (c ∷ a) [] username = refl
initials_lem to_upper (c ∷ a) (d ∷ b) username = refl

person_initials-monogram :
    (to_upper : Text → Text) (p : Person)
    → person_initials to_upper (some p) ≡ monogram to_upper p.first_name p.last_name p.username
unfolding person_initials monogram
person_initials-monogram to_upper p =
    initials_lem to_upper (trim p.first_name) (trim p.last_name) p.username

posted_names : Effect → Text × Text
posted_names (post_profile first last) = (first, last)
posted_names _ = ([], [])

names_of : Account → Text × Text
names_of a = (a.first_name, a.last_name)

saved_fields :
    (a : Account) (p : Person)
    → (step a profile_pressed).1 ≡ post_profile p.first_name p.last_name
    → names_of a ≡ posted_names (post_profile p.first_name p.last_name)
unfolding step posted_names names_of
saved_fields a p h = ap posted_names h

or_text-named : (name u other : Text) → u ≢ [] → or_text (or_text name u) other ≡ or_text name u
or_text-named [] [] other h = absurd (h refl)
or_text-named [] (c ∷ u) other h = refl
or_text-named (c ∷ name) u other h = refl

-- The three pages agree on a name: if the account's page saves the names that the server then answers
-- with, the header shows the letters and, for an account with an address, the name of the card on that
-- page, and the table of the users shows the same name.
pub saved-names :
    (to_upper : Text → Text) (a : Account) (p : Person)
    → (step a profile_pressed).1 ≡ post_profile p.first_name p.last_name
    → p.username ≢ []
    → let shown = card to_upper a p.username p.role in
      (person_initials to_upper (some p) ≡ shown.letters)
      × (person_label (some p) ≡ shown.display_name)
      × (name_of p.first_name p.last_name p.username ≡ shown.display_name)
unfolding card person_label names_of posted_names
saved-names to_upper a p h named =
    let same = saved_fields a p h in
    rw (ap (λ names. names.0) same, ap (λ names. names.1) same)
      (
        person_initials-monogram to_upper p,
        or_text-named (full_name p.first_name p.last_name) p.username _ named,
        name_of-full_name p.first_name p.last_name p.username,
      )
