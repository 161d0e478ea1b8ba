-- ===== src/Auth/Dialog/Loops.antt =====
-- auth/dialog/dialog.go and auth/terminal/code.go: the two authenticators on the same answers.
use tgcontrib.Base.{
  ℕ, zero, suc, ◌≡◌, inl, inr, refl, [], ◌∷◌, ◌++◌, Option, none, some, Bool-cases,
}
use tgcontrib.Base.Runes.{Runes, trim_space}
use tgcontrib.Auth.Ask.{
  Message, code_title, code_prompt, SentCode, reading, showing, Asked, answer, failed,
}
use tgcontrib.Auth.Terminal.{Line, line, no_line, Console, fits, misfit}
use tgcontrib.Auth.Terminal
use tgcontrib.Auth.Dialog.{Entered, entered, closed, not_shown, Dialogs, check_code, retry, code}

-- The same text, or the same error of the device.
abbrev pub SameText : Line → Entered → Type 0
SameText (line s) (entered r) = s ≡ r
SameText (no_line e) (not_shown x) = e ≡ x
SameText _ _ = ⊥

-- The same code, or the same error of the device.
abbrev pub SameCode : Asked Runes → Asked Runes → Type 0
SameCode (answer c) (answer b) = c ≡ b
SameCode (failed (reading e)) (failed (showing x)) = e ≡ x
SameCode _ _ = ⊥

module _ {T D : Type 0} (console : Console T) (dialogs : Dialogs D) (sprintf : Message → Runes)
    (sent : SentCode) (R : T → D → Type 0) where
  -- Behind related states, the terminal reads what the window for the code gives, both show the
  -- message for a code that does not fit, and the states stay related.
  pub record SameUser : Type 0 where
    pub asks :
        (t : T) (d : D)
        → R t d
        → SameText
            (Terminal.with_prompt console sprintf (sprintf code_prompt ++ b':' ∷ []) t).1
            (dialogs.entry (sprintf code_title) (sprintf code_prompt) d).1
          × R
              (Terminal.with_prompt console sprintf (sprintf code_prompt ++ b':' ∷ []) t).0
              (dialogs.entry (sprintf code_title) (sprintf code_prompt) d).0
    pub tells :
        (t : T) (d : D)
        → R t d
        → ((console.write (sprintf (misfit sent) ++ b'\n' ∷ []) t).1 ≡ none)
          × ((dialogs.error_window (sprintf code_title) (sprintf (misfit sent) ++ b'\n' ∷ []) d).1
              ≡ none)
          × R
              (console.write (sprintf (misfit sent) ++ b'\n' ∷ []) t).0
              (dialogs.error_window (sprintf code_title) (sprintf (misfit sent) ++ b'\n' ∷ []) d).0

  -- Both are still asking, or both have returned the same.
  abbrev pub Agree : Option (T × Asked Runes) → Option (D × Asked Runes) → Type 0
  Agree none none = Unit
  Agree (some (t, a)) (some (d, b)) = R t d × SameCode a b
  Agree _ _ = ⊥

module _ {T D : Type 0} (console : Console T) (dialogs : Dialogs D) (sprintf : Message → Runes)
    (sent : SentCode) (R : T → D → Type 0) (same : SameUser console dialogs sprintf sent R) where
  retries-Agree :
      (again : T → Option (T × Asked Runes)) (again' : D → Option (D × Asked Runes))
      → ((t : T) (d : D) → R t d → Agree console dialogs sprintf sent R (again t) (again' d))
      → (x : T × Option ℕ) (y : D × Option ℕ) → x.1 ≡ none
      → y.1 ≡ none
      → R x.0 y.0
      → Agree console dialogs sprintf sent R
          (Terminal.retry console sprintf again x)
          (retry dialogs sprintf again' y)
  unfolding Terminal.retry retry
  retries-Agree again again' ih (t, none) (d, none) p q r = ih t d r
  retries-Agree again again' ih (t, some e) y p q r = cc
  retries-Agree again again' ih (t, none) (d, some e) p q r = cc

  checks-Agree :
      (again : T → Option (T × Asked Runes)) (again' : D → Option (D × Asked Runes))
      → ((t : T) (d : D) → R t d → Agree console dialogs sprintf sent R (again t) (again' d))
      → (x : T × Line) (y : D × Entered) → SameText x.1 y.1
      → R x.0 y.0
      → Agree console dialogs sprintf sent R
          (Terminal.check_code console sprintf again sent x)
          (check_code dialogs sprintf again' sent y)
  unfolding Terminal.check_code check_code
  checks-Agree again again' ih (t, line s) (d, entered u) e r =
      elim (Bool-cases (fits sent (trim_space s))) [
        | inl f ↦ rw (← e, f) (r, refl)
        | inr f ↦
            let (told, told', r') = same.tells t d r in
            rw (← e, f) (retries-Agree again again' ih _ _ told told' r')
      ]
  checks-Agree again again' ih (t, no_line x) (d, not_shown y) e r = (r, e)
  checks-Agree again again' ih (t, line s) (d, closed) e r = absurd e
  checks-Agree again again' ih (t, line s) (d, not_shown y) e r = absurd e
  checks-Agree again again' ih (t, no_line x) (d, closed) e r = absurd e
  checks-Agree again again' ih (t, no_line x) (d, entered u) e r = absurd e

  -- On the same answers, where the messages for a code that does not fit can be shown, the
  -- terminal and the windows return the same code or the same error of the device behind the
  -- same number of questions, or are both still asking.
  pub code_agrees :
      (f : ℕ) (t : T) (d : D)
      → R t d
      → Agree console dialogs sprintf sent R
          (Terminal.code console sprintf f sent t)
          (code dialogs sprintf f sent d)
  unfolding Terminal.code code
  code_agrees zero t d r = tt
  code_agrees (suc f) t d r =
      let (e, r') = same.asks t d r in
      checks-Agree (Terminal.code console sprintf f sent) (code dialogs sprintf f sent)
        (code_agrees f) _ _ e r'
