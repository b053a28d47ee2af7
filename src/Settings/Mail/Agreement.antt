-- ===== src/Settings/Mail/Agreement.antt =====
-- What a test of the SMTP server says of the settings that a save would store.
use safe_dock.Common.{
  ◌≡◌, ◌≢◌, refl, sym, ap, ◌∙◌, arith, zero, suc, List, [], ◌∷◌, true, false, Option, none, some,
  Text, is_empty, if◌then◌else◌,
}
use safe_dock.Common.Int.{ℤ, pos, negsuc}
use safe_dock.Http.{or_text}
use safe_dock.Settings.{Form, initial, load_config, port_of, save_global, Choice, choose_all}
use safe_dock.Settings.Server.{Server, Strings, get_config, decode_port, post_config, reload}
use safe_dock.Settings.Saving.{IsValid}
use safe_dock.Settings.Choices.{kept_row, kept_url, chosen-IsValid}
use safe_dock.Settings.Mail.{Tester, press, test_body, test_port, or_stored, test_config}

-- A field that is not blank and has no blank around.
abbrev pub IsPlain : Strings → Text → Type 0
IsPlain go t = (go.trim_space t ≡ t) × (t ≢ [])

or_text-IsPlain : (go : Strings) (t old : Text) → IsPlain go t → or_text (go.trim_space t) old ≡ t
or_text-IsPlain go t old h = rw h.0 (filled t h.1)
  where
    filled : (u : Text) → u ≢ [] → or_text u old ≡ u
    filled [] e = absurd (e refl)
    filled (c ∷ u) e = refl

or_text-if : (t old : Text) → or_text t old ≡ (if is_empty t then old else t)
or_text-if [] old = refl
or_text-if (c ∷ t) old = refl

or_stored-filled : (p old : ℤ) → p ≢ pos 0 → or_stored p old ≡ p
or_stored-filled (pos zero) old h = absurd (h refl)
or_stored-filled (pos (suc n)) old h = refl
or_stored-filled (negsuc n) old h = refl

test_port-decode_port : (o : Option ℤ) (p : ℤ) → decode_port o ≡ some p → test_port o ≡ p
unfolding test_port decode_port
test_port-decode_port none p h = cc
test_port-decode_port (some n) p h = ground (arith, h)

module _ (go : Strings) where
  test_config-kept_row :
      (f : Form) (port : ℤ) (url : Text) (s : Server)
      → s.smtp ≡ s.row.smtp
      → decode_port (port_of f.smtp_port) ≡ some port
      → port ≢ pos 0
      → IsPlain go f.smtp_host
      → IsPlain go f.smtp_user
      → IsPlain go f.smtp_from
      → test_config go (test_body f) s.smtp ≡ (reload (kept_row port f url s.row)).smtp
  unfolding test_config test_body reload kept_row
  test_config-kept_row f port url s loaded p filled host user from =
      rw
        (
          loaded,
          or_text-IsPlain go f.smtp_host s.row.smtp.host host,
          or_text-IsPlain go f.smtp_user s.row.smtp.user user,
          or_text-IsPlain go f.smtp_from s.row.smtp.from from,
          or_text-if f.smtp_pass s.row.smtp.password,
          test_port-decode_port (port_of f.smtp_port) port p,
          or_stored-filled port s.row.smtp.port filled,
        )
        refl

  press-test_body :
      (f : Form) (t : Tester) → t.smtp_testing ≡ false → (press f t).1 ≡ some (test_body f)
  unfolding press
  press-test_body f t h = rw h refl

  loaded_smtp : (s : Server) → IsValid s → s.smtp ≡ s.row.smtp
  unfolding reload
  loaded_smtp s v = sym (ap (λ (t : Server). t.smtp) v.loaded)

  -- A test that is made before saving tries what a save stores: whatever is typed and chosen in the form
  -- of a valid server, if its host, user and sender are filled, with no blanks around, and its port is
  -- a number other than 0 that fits, then the button sends the form, unless a test runs, the server
  -- tests with just the SMTP settings that it keeps once the form is saved, the password included, and
  -- the save is accepted.
  pub tested-saved :
      (s : Server)
      → IsValid s
      → (cs : List Choice) (port : ℤ) (t : Tester)
      → let f = choose_all (load_config (get_config s) initial) cs in
        decode_port (port_of f.smtp_port) ≡ some port
        → port ≢ pos 0
        → IsPlain go f.smtp_host
        → IsPlain go f.smtp_user
        → IsPlain go f.smtp_from
        → t.smtp_testing ≡ false
        → ((press f t).1 ≡ some (test_body f))
          × ((post_config go (save_global f) s).0.smtp ≡ test_config go (test_body f) s.smtp)
          × ((post_config go (save_global f) s).1 ≡ true)
  tested-saved s v cs port t p filled host user from free =
      let f = choose_all (load_config (get_config s) initial) cs in
      let saved = (chosen-IsValid go s v cs port p).0 in
      let agreed =
        test_config-kept_row f port (kept_url go f s.row.base_url) s (loaded_smtp s v) p filled host
          user from in
      (
        press-test_body f t free,
        ap (λ answer. answer.0.smtp) saved ∙ sym agreed,
        ap (λ answer. answer.1) saved,
      )
