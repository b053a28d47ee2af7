-- ===== src/Feeds/Fresh.antt =====
-- What a page shows once the fetches behind a change have been answered.
use safe_dock.Common.{◌≡◌, arith, ℕ, zero, suc, List, [], ◌∷◌, ◌++◌, true, Option, ◌⊎◌, any}
use safe_dock.App.{json}
use safe_dock.Feeds.{
  Feed, same_feed, Feeds, Event, session_found, polled_again, refresh_pressed, refresh_over,
  changed, confirmed, answered, left,
}

-- The feed is among those that are fetched.
abbrev pub IsAsked : Feed → List Feed → Type 0
IsAsked f fs = any (same_feed f) fs ≡ true

-- The feed is on its way behind a number of older fetches.
abbrev Waits : Feed → ℕ → List Feed → Type 0
Waits f zero fs = IsAsked f fs
Waits f (suc k) [] = ⊥
Waits f (suc k) (g ∷ fs) = Waits f k fs

IsAsked-behind : (f : Feed) (xs ys : List Feed) → IsAsked f ys → IsAsked f (xs ++ ys)
IsAsked-behind f [] ys h = h
IsAsked-behind f (x ∷ xs) ys h = ground (arith, IsAsked-behind f xs ys h)

module _ {A : Type 0} (IsRecent : Option A → Type 0) where
  -- The sessions in which the fetches are answered in the order in which they were sent and, but for a
  -- number of older ones, with recent values.
  abbrev pub IsServed : ℕ → List (Event A) → Type 0
  IsServed k [] = Unit
  IsServed k (session_found b ∷ es) = IsServed k es
  IsServed k (polled_again ∷ es) = IsServed k es
  IsServed k (refresh_pressed ∷ es) = IsServed k es
  IsServed k (refresh_over ∷ es) = IsServed k es
  IsServed k (changed c ∷ es) = IsServed k es
  IsServed k (confirmed n ok ∷ es) = IsServed k es
  IsServed k (left ∷ es) = IsServed k es
  IsServed k (answered (suc n) a ∷ es) = ⊥
  IsServed (suc k) (answered zero a ∷ es) = IsServed k es
  IsServed zero (answered zero (json o) ∷ es) = IsRecent o × IsServed zero es
  IsServed zero (answered zero _ ∷ es) = ⊥

  -- The feed is still on its way, or what is shown is recent.
  abbrev Inv : Feed → ℕ → List Feed → Option A → Type 0
  Inv f zero fs o = IsAsked f fs ⊎ IsRecent o
  Inv f (suc k) fs o = Waits f (suc k) fs

  Holds : Feed → ℕ → Feeds A → Type 0
  Holds f k s = Inv f k s.fetches (s.shown f)
