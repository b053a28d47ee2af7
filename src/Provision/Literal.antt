-- ===== src/Provision/Literal.antt =====
-- The values of a request stand in its script as plain texts.
use safe_dock.Common.{
  ◌≡◌, refl, sym, ap, ◌∙◌, arith, ℕ, List, [], ◌∷◌, ◌++◌, append_assoc, Bool, true, false, not,
  ◌&&◌, Text, codes, ◌==◌, All,
}
use safe_dock.Provision.{all_of, from_token, from_value}
use safe_dock.Provision.Scripts.{
  unlines, linux_comments, linux_values, windows_comments, windows_values,
}
use safe_dock.Provision.Shell.{Reader, single, fresh, read, read_comment, read_literal, quoted_line}

-- One line with no simple quotation mark.
abbrev pub is_plain : ℕ → Bool
is_plain c = not (c == b'\'') && not (c == b'\n')

abbrev pub no_newline : ℕ → Bool
no_newline c = not (c == b'\n')

abbrev pub IsPlain : Text → Type 0
IsPlain s = all_of is_plain s ≡ true

pub all_of-append : (p : ℕ → Bool) (s t : Text) → all_of p (s ++ t) ≡ (all_of p s && all_of p t)
unfolding all_of
all_of-append p [] t = refl
all_of-append p (c ∷ s) t = ground (arith, all_of-append p s t)

pub all_of-All : (p : ℕ → Bool) (s : Text) → all_of p s ≡ true → All (λ c. p c ≡ true) s
unfolding all_of
all_of-All p [] h = tt
all_of-All p (c ∷ s) h = (ground arith, all_of-All p s (ground arith))

pub all_of-imp :
    (p q : ℕ → Bool)
    → ((c : ℕ) → p c ≡ true → q c ≡ true)
    → (s : Text) → All (λ c. p c ≡ true) s
    → all_of q s ≡ true
unfolding all_of
all_of-imp p q i [] h = refl
all_of-imp p q i (c ∷ s) h = ground (arith, i c h.0, all_of-imp p q i s h.1)

plain-newline : (c : ℕ) → is_plain c ≡ true → no_newline c ≡ true
plain-newline c h = ground arith

plain-quote : (s : Text) → IsPlain s → All (λ c. not (c == b'\'') ≡ true) s
unfolding all_of
plain-quote [] h = tt
plain-quote (c ∷ s) h = (ground arith, plain-quote s (ground arith))

pub on_one_line : (s : Text) → IsPlain s → all_of no_newline s ≡ true
on_one_line s h = all_of-imp is_plain no_newline plain-newline s (all_of-All is_plain s h)

pub unlines-append : (ks ls : List Text) → unlines (ks ++ ls) ≡ unlines ks ++ unlines ls
unfolding unlines
unlines-append [] ls = refl
unlines-append (k ∷ ks) ls =
    ap (λ t. k ++ (b'\n' ∷ t)) (unlines-append ks ls)
    ∙ sym (append_assoc k (b'\n' ∷ unlines ks) (unlines ls))

unfoldable pub are_comments : List Text → Bool
are_comments [] = true
are_comments ([] ∷ ls) = false
are_comments ((c ∷ l) ∷ ls) = (c == b'#') && (all_of no_newline l && are_comments ls)

module _ (quoting : ℕ) where
  pub read_comments :
      (cs : List (List Text)) (ls : List Text) (t : Text)
      → are_comments ls ≡ true
      → read quoting (fresh cs) (unlines ls ++ t) ≡ read quoting (fresh cs) t
  unfolding are_comments unlines read
  read_comments cs [] t h = refl
  read_comments cs ([] ∷ ls) t h = cc
  read_comments cs ((c ∷ l) ∷ ls) t h =
      let mark : c ≡ b'#' = ground arith in
      let line : all_of no_newline l ≡ true = ground arith in
      ap (read quoting (fresh cs)) (append_assoc (c ∷ l) (b'\n' ∷ unlines ls) t)
      ∙ (ap (λ d. read quoting (fresh cs) (d ∷ (l ++ (b'\n' ∷ (unlines ls ++ t))))) mark
          ∙ (read_comment quoting cs l (unlines ls ++ t) (all_of-All no_newline l line)
              ∙ read_comments cs ls t (ground arith)))

pub linux_comments-ok :
    (user sfx : Text)
    → all_of no_newline user ≡ true
    → all_of no_newline sfx ≡ true
    → are_comments (linux_comments user sfx) ≡ true
unfolding are_comments all_of
linux_comments-ok user sfx h k =
    rw (all_of-append no_newline user _, all_of-append no_newline sfx _, h, k) refl

-- The option `from=` of a key, if there is an address.
abbrev pub from_option : Text → Text
from_option [] = []
from_option (c ∷ s) = codes "from=\"" ++ ((c ∷ s) ++ codes "\",")

abbrev strict : List Text
strict = codes "set" ∷ codes "-euo" ∷ codes "pipefail" ∷ []

-- The commands of the lines that hold the values.
abbrev pub linux_commands : (key user ip : Text) → List (List Text)
linux_commands key user ip =
    strict
    ∷ ((codes "SAFEDOCK_USER=" ++ user) ∷ [])
    ∷ ((codes "PUBKEY=" ++ key) ∷ [])
    ∷ ((codes "FROM=" ++ from_option ip) ∷ [])
    ∷ []

abbrev stop : List Text
stop = codes "$ErrorActionPreference" ∷ codes "=" ∷ codes "Stop" ∷ []

abbrev pub windows_commands : (key user ip : Text) → List (List Text)
windows_commands key user ip =
    stop
    ∷ (codes "$User" ∷ codes "=" ∷ user ∷ [])
    ∷ (codes "$PubKey" ∷ codes "=" ∷ key ∷ [])
    ∷ (codes "$From" ∷ codes "=" ∷ ip ∷ [])
    ∷ []

read_from :
    (cs : List (List Text)) (ip t : Text)
    → IsPlain ip
    → read b'\\' (fresh cs) ((codes "FROM=" ++ from_token ip) ++ (b'\n' ∷ t))
      ≡ read b'\\' (fresh (cs ++ ((codes "FROM=" ++ from_option ip) ∷ []) ∷ [])) t
unfolding from_token read
read_from cs [] t h = refl
read_from cs (c ∷ s) t h =
    ap
      (read b'\\'
        (record { mode = single; word = codes "FROM=from=\""; words = []; commands = cs }))
      (append_assoc (c ∷ s) (codes "\",'") (b'\n' ∷ t))
    ∙ (read_literal b'\\' (codes "FROM=from=\"") [] cs (c ∷ s) (codes "\",'" ++ (b'\n' ∷ t))
          (plain-quote (c ∷ s) h)
        ∙ ap (λ v. read b'\\' (fresh (cs ++ ((codes "FROM=from=\"" ++ v) ∷ []) ∷ [])) t)
            (append_assoc (c ∷ s) (b'"' ∷ []) (b',' ∷ [])))

-- A line and what follows it.
cons_line :
    (quoting : ℕ) (r : Reader) (l : Text) (ls : List Text) (t : Text)
    → read quoting r (unlines (l ∷ ls) ++ t) ≡ read quoting r (l ++ (b'\n' ∷ (unlines ls ++ t)))
unfolding unlines
cons_line quoting r l ls t = ap (read quoting r) (append_assoc l (b'\n' ∷ unlines ls) t)

user_line :
    (cs : List (List Text)) (user t : Text)
    → IsPlain user
    → read b'\\' (fresh cs) ((codes "SAFEDOCK_USER='" ++ (user ++ codes "'")) ++ (b'\n' ∷ t))
      ≡ read b'\\' (fresh (cs ++ ((codes "SAFEDOCK_USER=" ++ user) ∷ []) ∷ [])) t
unfolding read
user_line cs user t h = quoted_line b'\\' (codes "SAFEDOCK_USER=") [] cs user t (plain-quote user h)

key_line :
    (cs : List (List Text)) (key t : Text)
    → IsPlain key
    → read b'\\' (fresh cs) ((codes "PUBKEY='" ++ (key ++ codes "'")) ++ (b'\n' ∷ t))
      ≡ read b'\\' (fresh (cs ++ ((codes "PUBKEY=" ++ key) ∷ []) ∷ [])) t
unfolding read
key_line cs key t h = quoted_line b'\\' (codes "PUBKEY=") [] cs key t (plain-quote key h)

-- The lines that hold the values, one after the other.
pub read-linux_values :
    (key user ip t : Text)
    → IsPlain key
    → IsPlain user
    → IsPlain ip
    → read b'\\' (fresh []) (unlines (linux_values user key (from_token ip)) ++ t)
      ≡ read b'\\' (fresh (linux_commands key user ip)) t
unfolding unlines read
read-linux_values key user ip t h k l =
    let from : List Text = (codes "FROM=" ++ from_token ip) ∷ [] in
    let key_and_from : List Text = (codes "PUBKEY='" ++ (key ++ codes "'")) ∷ from in
    let one : List (List Text) = strict ∷ [] in
    let two : List (List Text) = one ++ ((codes "SAFEDOCK_USER=" ++ user) ∷ []) ∷ [] in
    let three : List (List Text) = two ++ ((codes "PUBKEY=" ++ key) ∷ []) ∷ [] in
    cons_line b'\\' (fresh one) (codes "SAFEDOCK_USER='" ++ (user ++ codes "'")) key_and_from t
    ∙ (user_line one user (unlines key_and_from ++ t) k
        ∙ (cons_line b'\\' (fresh two) (codes "PUBKEY='" ++ (key ++ codes "'")) from t
            ∙ (key_line two key (unlines from ++ t) h
                ∙ (cons_line b'\\' (fresh three) (codes "FROM=" ++ from_token ip) [] t
                    ∙ read_from three ip t l))))

pub windows_comments-ok :
    (user sfx : Text)
    → all_of no_newline user ≡ true
    → all_of no_newline sfx ≡ true
    → are_comments (windows_comments user sfx) ≡ true
unfolding are_comments all_of
windows_comments-ok user sfx h k =
    rw (all_of-append no_newline user _, all_of-append no_newline sfx _, h, k) refl

-- A PowerShell assignment of one value.
windows_line :
    (name : Text) (cs : List (List Text)) (v t : Text)
    → IsPlain v
    → read b'`'
        (record { mode = single; word = []; words = name ∷ codes "=" ∷ []; commands = cs })
        ((v ++ codes "'") ++ (b'\n' ∷ t))
      ≡ read b'`' (fresh (cs ++ (name ∷ codes "=" ∷ v ∷ []) ∷ [])) t
unfolding read
windows_line name cs v t h = quoted_line b'`' [] (name ∷ codes "=" ∷ []) cs v t (plain-quote v h)

pub read-windows_values :
    (key user ip t : Text)
    → IsPlain key
    → IsPlain user
    → IsPlain ip
    → read b'`' (fresh []) (unlines (windows_values user key (from_value ip)) ++ t)
      ≡ read b'`' (fresh (windows_commands key user ip)) t
unfolding unlines read from_value
read-windows_values key user ip t h k l =
    let from : List Text = (codes "$From   = " ++ from_value ip) ∷ [] in
    let key_and_from : List Text = (codes "$PubKey = '" ++ (key ++ codes "'")) ∷ from in
    let one : List (List Text) = stop ∷ [] in
    let two : List (List Text) = one ++ (codes "$User" ∷ codes "=" ∷ user ∷ []) ∷ [] in
    let three : List (List Text) = two ++ (codes "$PubKey" ∷ codes "=" ∷ key ∷ []) ∷ [] in
    cons_line b'`' (fresh one) (codes "$User   = '" ++ (user ++ codes "'")) key_and_from t
    ∙ (windows_line (codes "$User") one user (unlines key_and_from ++ t) k
        ∙ (cons_line b'`' (fresh two) (codes "$PubKey = '" ++ (key ++ codes "'")) from t
            ∙ (windows_line (codes "$PubKey") two key (unlines from ++ t) h
                ∙ (cons_line b'`' (fresh three) (codes "$From   = " ++ from_value ip) [] t
                    ∙ windows_line (codes "$From") three ip t l))))
