-- ===== src/Users/Invitations.antt =====
-- Which account an invitation is shown for, against an observer of what is posted and answered.
use mathlib.Core.List.{map-append}
use safe_dock.Common.{
  append-nil, ◌≡◌, refl, ap, sym, arith, ℕ, zero, suc, List, [], ◌∷◌, ◌++◌, map, Option, none, some,
  Text,
}
use safe_dock.Common.Flight.{pick, pick-none}
use safe_dock.Users.{
  Users, initial, Invite, Request, creation, mfa_reset, password_reset, deletion, role_change,
  tag_creation, tag_deletion, Effect, quiet, post_user, post_reset_mfa, User, Reply, done, failed,
  Event, email_typed, first_name_typed, last_name_typed, tag_typed, role_chosen, scope_all_checked,
  msg_faded, invite_closed, user_submitted, tag_submitted, reset_mfa_pressed, delete_pressed,
  password_given, role_set, tag_deleted, answered, create_tag, reset_password, finish, on_reply,
  step, run,
}

-- A request on its way: one that invites an account, or another.
pub data Post : Type 0 where
  invites : Text → Post
  other : Post

-- What is on its way once a request is posted: a creation invites the address that is posted, and a
-- reset of the second factor the account of the row.
abbrev pub note : Event → Effect → List Post
note e quiet = []
note e (post_user n) = invites n.email ∷ []
note (reset_mfa_pressed who) (post_reset_mfa i) = invites who.username ∷ []
note e f = other ∷ []

-- The requests on their way, and the last invitation that an answer has brought, until it is closed.
pub record Seen : Type 0 where
  pub asked : List Post
  pub invitation : Option Invite

abbrev pub see_answer : Option Post → Reply → Option Invite → Option Invite
see_answer (some (invites name)) (done link sent) i =
    some (record { email = name; link = link; email_sent = sent })
see_answer _ _ i = i

unfoldable pub see : Users → Event → Seen → Seen
see u (answered n a) s =
    let (found, rest) = pick n s.asked in
    record { asked = rest; invitation = see_answer found a s.invitation }
see u invite_closed s = record s { invitation = none }
see u e s = record s { asked = s.asked ++ note e (step u e).1 }

unfoldable pub see_all : Users → Seen → List Event → Seen
see_all u s [] = s
see_all u s (e ∷ es) = see_all (step u e).0 (see u e s) es

abbrev asked_of : Request → Post
asked_of (creation email) = invites email
asked_of (mfa_reset email) = invites email
asked_of _ = other

record Tracks (u : Users) (s : Seen) : Type 0 where
  same_asked : s.asked ≡ map asked_of u.running
  same_invitation : u.invite ≡ s.invitation

abbrev asked_found : Option Request → Option Post
asked_found none = none
asked_found (some r) = some (asked_of r)

pick-map :
    (n : ℕ) (rs : List Request)
    → pick n (map asked_of rs) ≡ (asked_found (pick n rs).0, map asked_of (pick n rs).1)
unfolding pick
pick-map n [] = refl
pick-map zero (r ∷ rs) = refl
pick-map (suc n) (r ∷ rs) = ap (λ found. (found.0, asked_of r ∷ found.1)) (pick-map n rs)

begin-Tracks :
    (r : Request) (u : Users) (s : Seen)
    → Tracks u s
    → s.asked ++ asked_of r ∷ [] ≡ map asked_of (u.running ++ r ∷ [])
begin-Tracks r u s h = rw h.same_asked (sym (map-append asked_of u.running (r ∷ [])))

on_reply-Tracks :
    (found : Option Request) (rest : List Request) (a : Reply) (u : Users) (i : Option Invite)
    → u.invite ≡ i
    → (found ≡ none → rest ≡ u.running)
    → Tracks
        (on_reply found rest a u)
        (record { asked = map asked_of rest; invitation = see_answer (asked_found found) a i })
unfolding on_reply finish
on_reply-Tracks none rest a u i h r = record {
  same_asked = ap (map asked_of) (r refl);
  same_invitation = h;
}
on_reply-Tracks (some r) rest (failed m) u i h k = record {
  same_asked = refl;
  same_invitation = ground (arith, h);
}
on_reply-Tracks (some r) rest (done link sent) u i h k = record {
  same_asked = ground arith;
  same_invitation = ground (arith, h);
}

answered-Tracks :
    (n : ℕ) (a : Reply) (u : Users) (s : Seen)
    → Tracks u s
    → Tracks (step u (answered n a)).0 (see u (answered n a) s)
unfolding step see
answered-Tracks n a u s h = rw h.same_asked (
    rw (pick-map n u.running) (
      on_reply-Tracks (pick n u.running).0 (pick n u.running).1 a u s.invitation h.same_invitation
        (pick-none n u.running)))

begun-Tracks :
    (r : Request) (u : Users) (s : Seen)
    → Tracks u s
    → Tracks
        (record u { running = u.running ++ r ∷ [] })
        (record s { asked = s.asked ++ asked_of r ∷ [] })
begun-Tracks r u s h = record {
  same_asked = begin-Tracks r u s h;
  same_invitation = h.same_invitation;
}

-- An input that sends nothing.
typed : (u : Users) (s : Seen) → Tracks u s → Tracks u (record s { asked = s.asked ++ [] })
typed u s h = rw (append-nil s.asked) h

create_tag-Tracks :
    (u : Users) (s : Seen) → Tracks u s → Tracks (step u tag_submitted).0 (see u tag_submitted s)
unfolding step see create_tag
create_tag-Tracks u s h = ground (arith, typed u s h, begun-Tracks tag_creation u s h)

reset_password-Tracks :
    (who : User) (p : Option Text) (u : Users) (s : Seen)
    → Tracks u s
    → Tracks (step u (password_given who p)).0 (see u (password_given who p) s)
unfolding step see reset_password
reset_password-Tracks who none u s h = typed u s h
reset_password-Tracks who (some []) u s h = typed u s h
reset_password-Tracks who (some (c ∷ p)) u s h = begun-Tracks password_reset u s h

step-Tracks : (e : Event) (u : Users) (s : Seen) → Tracks u s → Tracks (step u e).0 (see u e s)
unfolding step see
step-Tracks (answered n a) u s h = answered-Tracks n a u s h
step-Tracks invite_closed u s h = record { same_asked = h.same_asked; same_invitation = refl }
step-Tracks user_submitted u s h = begun-Tracks (creation u.nu.email) u s h
step-Tracks tag_submitted u s h = create_tag-Tracks u s h
step-Tracks (reset_mfa_pressed who) u s h = begun-Tracks (mfa_reset who.username) u s h
step-Tracks (delete_pressed who) u s h = begun-Tracks deletion u s h
step-Tracks (password_given who p) u s h = reset_password-Tracks who p u s h
step-Tracks (role_set who r) u s h = begun-Tracks role_change u s h
step-Tracks (tag_deleted n) u s h = begun-Tracks tag_deletion u s h
step-Tracks (email_typed v) u s h = record {
  same_asked = (typed u s h).same_asked;
  same_invitation = h.same_invitation;
}
step-Tracks (first_name_typed v) u s h = record {
  same_asked = (typed u s h).same_asked;
  same_invitation = h.same_invitation;
}
step-Tracks (last_name_typed v) u s h = record {
  same_asked = (typed u s h).same_asked;
  same_invitation = h.same_invitation;
}
step-Tracks (tag_typed v) u s h = record {
  same_asked = (typed u s h).same_asked;
  same_invitation = h.same_invitation;
}
step-Tracks (role_chosen r) u s h = record {
  same_asked = (typed u s h).same_asked;
  same_invitation = h.same_invitation;
}
step-Tracks (scope_all_checked b) u s h = record {
  same_asked = (typed u s h).same_asked;
  same_invitation = h.same_invitation;
}
step-Tracks msg_faded u s h = record {
  same_asked = (typed u s h).same_asked;
  same_invitation = h.same_invitation;
}

run-Tracks :
    (es : List Event) (u : Users) (s : Seen) → Tracks u s → Tracks (run u es) (see_all u s es)
unfolding run see_all
run-Tracks [] u s h = h
run-Tracks (e ∷ es) u s h = run-Tracks es (step u e).0 (see u e s) (step-Tracks e u s h)

-- An invitation is shown for the account that it was made for: in every session, whatever is typed,
-- pressed, asked for and answered in whatever order, the page shows the link of the last creation of an
-- account or reset of a second factor that has succeeded since an invitation was last closed, or none,
-- under the address that was posted with the creation, or the account of the row whose reset was
-- pressed.
pub run-invite :
    (es : List Event)
    → (run initial es).invite
      ≡ (see_all initial (record { asked = []; invitation = none }) es).invitation
run-invite es =
    (run-Tracks es initial (record { asked = []; invitation = none })
      (record { same_asked = refl; same_invitation = refl })).same_invitation
